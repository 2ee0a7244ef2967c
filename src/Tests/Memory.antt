-- ===== src/Tests/Memory.antt =====
-- A database that keeps the checkpoints of one task and in which every event has happened.
use absurd_rust_sdk.Base.{
  ◌≡◌, ◌≢◌, refl, sym, ap, ◌∙◌, String, Bool, true, false, Option, none, some, List, [], ◌∷◌, ◌++◌,
  head?, str_eq, eq_iff, eq_refl, if◌then◌else◌, arith, Bool-cases, inl, inr,
}
use absurd_rust_sdk.Json.{Json, string}
use absurd_rust_sdk.Backend.{
  Backend, Call, Answer, Reply, answered, refused, get_task_checkpoint_states,
  get_task_checkpoint_state, set_task_checkpoint_state, await_event,
}
use absurd_rust_sdk.Context.State.Fresh.{last_of}
use absurd_rust_sdk.Context.Durable.{Spares, Durable}
use absurd_rust_sdk.Tests.Fixtures.{calm, answer_of}

abbrev Rows : Type 0
Rows = List (String × Json)

abbrev row_of : Option Json → List Json
row_of none = []
row_of (some v) = v ∷ []

abbrev keep : String → Json → Rows → Rows
keep k v s = s ++ ((k, v) ∷ [])

abbrev reply : (c : Call) → Rows → Reply (Answer c) × Rows
reply (get_task_checkpoint_states q id run) s = (answered s, s)
reply (get_task_checkpoint_state q id k) s = (answered (row_of (last_of k s)), s)
reply (set_task_checkpoint_state q id k v run n) s = (answered tt, keep k v s)
reply (await_event q id run k e n) s =
    (answered (false, some (string "T1")), keep k (string "T1") s)
reply c s = (answered (answer_of c), s)

abbrev pub memory : Backend
memory = record {
  State = Rows;
  connect = λ s. (none, s);
  query = reply;
  instant = λ s. (0, s);
  sleep = λ d s. s;
  from_std = λ d. some d;
  add_time = calm.add_time;
  overflow = calm.overflow;
  time_codec = calm.time_codec;
  serde_error = calm.serde_error;
}

last_of-keep :
    (j k : String) (v : Json) (s : Rows)
    → last_of j (keep k v s) ≡ (if str_eq k j then some v else last_of j s)
unfolding last_of
last_of-keep j k v [] = ground arith
last_of-keep j k v ((n, w) ∷ s) = rw (last_of-keep j k v s) (ground arith)

kept : (k : String) (v : Json) (s : Rows) → last_of k (keep k v s) ≡ some v
kept k v s = rw (last_of-keep k k v s, eq_refl) refl

kept_other :
    (j k : String) (v w : Json) (s : Rows)
    → k ≢ j
    → last_of j s ≡ some w
    → last_of j (keep k v s) ≡ some w
kept_other j k v w s other h = elim (Bool-cases (str_eq k j)) [
  | inl same ↦ absurd (other ((eq_iff k j).0 same))
  | inr apart ↦ rw (last_of-keep j k v s, apart) h
]

head-row_of : (o : Option Json) → head? (row_of o) ≡ o
head-row_of none = refl
head-row_of (some v) = refl

spared :
    (c : Call) (s : Rows) (j : String) (v : Json)
    → Spares c j
    → last_of j s ≡ some v
    → last_of j (reply c s).1 ≡ some v
spared (get_task_checkpoint_states q id run) s j v h e = e
spared (get_task_checkpoint_state q id k) s j v h e = e
spared (set_task_checkpoint_state q id k w run n) s j v h e = kept_other j k w v s h e
spared (await_event q id run k x n) s j v h e = kept_other j k (string "T1") v s h e
spared c s j v h e = e

abbrev answer_or : {A : Type 0} → A → Reply A → A
answer_or a (answered b) = b
answer_or a (refused e) = a

left : {A : Type 0} {x y : A} {s t : Rows} → ◌≡◌ {A = A × Rows} (x, s) (y, t) → s ≡ t
left {A} e = ap (λ (m : A × Rows). m.1) e

told :
    {A : Type 0} (a : A) {x y : A} {s t : Rows}
    → ◌≡◌ {A = Reply A × Rows} (answered x, s) (answered y, t)
    → x ≡ y
told {A} a e = ap (λ (m : Reply A × Rows). answer_or a m.0) e

pub memory-Durable : Durable memory
memory-Durable = record {
  stored = λ s q id j. last_of j s;
  connects = λ s q id j. refl;
  spares = λ c s q id j v h e. spared c s j v h e;
  writes = λ s t q id run k v n e. ap (last_of k) (sym (left e)) ∙ kept k v s;
  reads = λ s t q id k rows e.
      ap head? (sym (told [] e)) ∙ head-row_of (last_of k s) ∙ ap (last_of k) (left e);
  reads_all = λ s t q id run rows k e. ap (last_of k) (sym (told [] e)) ∙ ap (last_of k) (left e);
  delivers = λ s t q id run k x n v e.
      ap (last_of k) (sym (left e))
      ∙ kept k (string "T1") s
      ∙ ap (λ (a : Bool × Option Json). a.1) (told (true, none) e);
}
