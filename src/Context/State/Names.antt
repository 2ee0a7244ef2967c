-- ===== src/Context/State/Names.antt =====
-- Checkpoint names: when two steps get the same one.
use text.Mathlib.TextLemmas.{cons-append, nil-append, length-append}
use Prim.Native.String.{count}
use absurd_rust_sdk.Base.{
  ℕ, ◌+◌, ◌≤◌, ◌≡◌, ◌≢◌, refl, sym, ap, ◌∙◌, subst, List, [], ◌∷◌, All, String, ◌<>◌, code, false,
  ◌==◌, arith, inl, inr, Bool-cases, unwrap_or, lookup, lookup-insert, eq_iff, str_eq, eq_refl,
  if◌then◌else◌,
}
use absurd_rust_sdk.Text.{display}
use absurd_rust_sdk.Text.Decimal.{display-injective, display-empty}
use absurd_rust_sdk.Context.State.{TaskContext, numbered, next_checkpoint_name}

-- The name has no number sign.
abbrev pub LacksHash : String → Type 0
LacksHash String.[] = Unit
LacksHash (String.◌∷◌ c s) = (code c ≢ b'#') × LacksHash s

-- The text before the first number sign, and the text behind it.
before_hash : String → String
before_hash String.[] = ""
before_hash (String.◌∷◌ c s) = if code c == b'#' then "" else String.◌∷◌ c (before_hash s)

after_hash : String → String
after_hash String.[] = ""
after_hash (String.◌∷◌ c s) = if code c == b'#' then s else after_hash s

before_hash-append : (s t : String) → LacksHash s → before_hash (s <> "#" <> t) ≡ s
unfolding before_hash
before_hash-append String.[] t h = rw (nil-append, cons-append)
before_hash-append (String.◌∷◌ c s) t h =
    rw (cons-append, before_hash-append s t h.1) (ground arith)

after_hash-append : (s t : String) → LacksHash s → after_hash (s <> "#" <> t) ≡ t
unfolding after_hash
after_hash-append String.[] t h = rw (nil-append, cons-append, nil-append)
after_hash-append (String.◌∷◌ c s) t h = rw cons-append (ground (arith, after_hash-append s t h.1))

before_hash_lem : (s : String) → LacksHash s → before_hash s ≡ s
unfolding before_hash
before_hash_lem String.[] h = refl
before_hash_lem (String.◌∷◌ c s) h = rw (before_hash_lem s h.1) (ground arith)

after_hash_lem : (s : String) → LacksHash s → after_hash s ≡ ""
unfolding after_hash
after_hash_lem String.[] h = refl
after_hash_lem (String.◌∷◌ c s) h = ground (arith, after_hash_lem s h.1)

before_hash-numbered : (s : String) (n : ℕ) → LacksHash s → before_hash (numbered s n) ≡ s
unfolding numbered
before_hash-numbered s n h = ground (arith, before_hash_lem s h, before_hash-append s (display n) h)

after_hash-numbered :
    (s : String) (n : ℕ)
    → LacksHash s
    → after_hash (numbered s n) ≡ (if n == 1 then "" else display n)
unfolding numbered
after_hash-numbered s n h = ground (arith, after_hash_lem s h, after_hash-append s (display n) h)

-- Step names without a number sign: equal checkpoint names come from equal steps and equal counts.
pub numbered-injective :
    (s t : String) (m n : ℕ)
    → LacksHash s
    → LacksHash t
    → 1 ≤ m
    → 1 ≤ n
    → numbered s m ≡ numbered t n
    → (s ≡ t) × (m ≡ n)
numbered-injective s t m n hs ht pm pn e = (
  sym (before_hash-numbered s m hs) ∙ ap before_hash e ∙ before_hash-numbered t n ht,
  counts (sym (after_hash-numbered s m hs) ∙ ap after_hash e ∙ after_hash-numbered t n ht),
)
  where
    counts : (if m == 1 then "" else display m) ≡ (if n == 1 then "" else display n) → m ≡ n
    counts p = elim (Bool-cases (m == 1)) [
      | inl a ↦ elim (Bool-cases (n == 1)) [
        | inl b ↦ ground arith
        | inr b ↦ absurd (ground (arith, display-empty n))
      ]
      | inr a ↦ elim (Bool-cases (n == 1)) [
        | inl b ↦ absurd (ground (arith, display-empty m))
        | inr b ↦ ground (arith, display-injective m n)
      ]
    ]

-- How often a name has been taken.
abbrev pub count_of : String → TaskContext → ℕ
count_of name c = unwrap_or (lookup name c.step_name_counter) 0

-- The checkpoint names of a run of steps, in order.
pub checkpoint_names : List String → TaskContext → List String
checkpoint_names [] c = []
checkpoint_names (name ∷ names) c =
    let (checkpoint_name, c') = next_checkpoint_name name c in
    checkpoint_name ∷ checkpoint_names names c'

abbrev pub Distinct : List String → Type 0
Distinct [] = Unit
Distinct (x ∷ xs) = All (λ y. x ≢ y) xs × Distinct xs

-- Taking a name counts it, and no other name.
count_of-next :
    (a name : String) (c : TaskContext)
    → count_of a (next_checkpoint_name name c).1
      ≡ (if str_eq name a then count_of name c + 1 else count_of a c)
unfolding next_checkpoint_name
count_of-next a name c = rw lookup-insert (ground arith)

next-numbered :
    (name : String) (c : TaskContext)
    → (next_checkpoint_name name c).0 ≡ numbered name (count_of name c + 1)
unfolding next_checkpoint_name
next-numbered name c = refl

not_taken_later :
    (names : List String) (a : String) (n : ℕ) (c : TaskContext)
    → All LacksHash names
    → LacksHash a
    → 1 ≤ n
    → n ≤ count_of a c
    → All (λ y. numbered a n ≢ y) (checkpoint_names names c)
unfolding checkpoint_names
not_taken_later [] a n c hs ha pn le = tt
not_taken_later (name ∷ names) a n c hs ha pn le = (
  λ e. taken_now (
      numbered-injective a name n (count_of name c + 1) ha hs.0 pn (omega arith)
        (e ∙ next-numbered name c)),
  not_taken_later names a n (next_checkpoint_name name c).1 hs.1 ha pn
      (rw (count_of-next a name c) (ground (arith, eq_iff name a))),
)
  where
    taken_now : (a ≡ name) × (n ≡ count_of name c + 1) → ⊥
    taken_now (p, q) = omega (arith, le, ap (λ (x : String). count_of x c) p, q)

-- Steps whose names have no number sign never share a checkpoint, however often a name is repeated.
pub checkpoint_names-Distinct :
    (names : List String) (c : TaskContext)
    → All LacksHash names
    → Distinct (checkpoint_names names c)
unfolding checkpoint_names
checkpoint_names-Distinct [] c hs = tt
checkpoint_names-Distinct (name ∷ names) c hs = (
  (subst (λ x. All (λ y. x ≢ y) (checkpoint_names names (next_checkpoint_name name c).1))
      (sym (next-numbered name c))
      (not_taken_later names name (count_of name c + 1) (next_checkpoint_name name c).1 hs.1 hs.0
        (omega arith) (rw (count_of-next name name c, eq_refl) (omega arith)))),
  checkpoint_names-Distinct names (next_checkpoint_name name c).1 hs.1,
)

-- A numbered name is longer than the name.
not_first : (s : String) (n : ℕ) → 2 ≤ n → numbered s n ≡ s <> "#" <> display n
unfolding numbered
not_first s n h = ground arith

not_same : (s : String) (n : ℕ) → 2 ≤ n → str_eq (numbered s n) s ≡ false
not_same s n h = elim (Bool-cases (str_eq (numbered s n) s)) [
  | inl same ↦ absurd (
      omega (
        arith,
        ap count ((eq_iff _ s).0 same),
        ap count (not_first s n h),
        length-append s ("#" <> display n),
        length-append "#" (display n),
      ))
  | inr differ ↦ differ
]

-- With a number sign they can: after `name` has been taken n times, a step that is called `name#n+1`
-- and the next step called `name` get one checkpoint between them.
pub next_checkpoint_name_collides :
    (name : String) (n : ℕ) (c : TaskContext)
    → count_of name c ≡ n
    → 1 ≤ n
    → count_of (numbered name (n + 1)) c ≡ 0
    → let (first, c') = next_checkpoint_name (numbered name (n + 1)) c in
      (next_checkpoint_name name c').0 ≡ first
unfolding numbered
next_checkpoint_name_collides name n c taken pn fresh =
    rw
      (
        next-numbered name (next_checkpoint_name (numbered name (n + 1)) c).1,
        next-numbered (numbered name (n + 1)) c,
        count_of-next name (numbered name (n + 1)) c,
        fresh,
        not_same name (n + 1) (omega arith),
        taken,
      )
      refl
