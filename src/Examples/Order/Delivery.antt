-- ===== src/Examples/Order/Delivery.antt =====
-- What a delivered order has behind it.
use absurd_rust_sdk.Base.{
  ◌≡◌, refl, sym, ap, ◌∙◌, String, ◌<>◌, some, none, Map, ℕ, [], subst, lookup, lookup-insert,
  str_eq, eq_iff, ◌≢◌, Bool-cases, inl, inr, code, false, unwrap_or, ◌+◌, arith,
}
use text.Mathlib.TextLemmas.{cons-append}
use absurd_rust_sdk.Error.{Result, ok, ok_injective}
use absurd_rust_sdk.Json.{Json}
use absurd_rust_sdk.Backend.{Backend, Codec, IsFaithful, pure, went_on}
use absurd_rust_sdk.Context.State.{Run, next_checkpoint_name, numbered}
use absurd_rust_sdk.Context.State.Cache.{cached_at}
use absurd_rust_sdk.Context.Step.{step}
use absurd_rust_sdk.Context.Step.Replay.{Holds, checkpoint_of, named, step-Holds}
use absurd_rust_sdk.Context.Step.Growth.{step-Grows}
use absurd_rust_sdk.Context.Event.{await_event_with_options}
use absurd_rust_sdk.Context.Event.Growth.{await_event-Received}
use absurd_rust_sdk.Context.Attempt.{attempt, Keeps, named-Keeps}
use absurd_rust_sdk.Context.Event.Replayed.{event_step}
use absurd_rust_sdk.Examples.Order.{
  OrderParams, Shipment, OrderResult, charge, sent, event_name, one_day, fulfill, ship, notify,
}

first_code : String → ℕ
first_code String.[] = 0
first_code (String.◌∷◌ c s) = code c

apart : (j k : String) → first_code j ≢ first_code k → str_eq j k ≡ false
apart j k differ = elim (Bool-cases (str_eq j k)) [
  | inl e ↦ absurd (differ (ap first_code ((eq_iff j k).0 e)))
  | inr e ↦ e
]

event_first : (event : String) → first_code ("$awaitEvent:" <> event) ≡ b'$'
unfolding first_code
event_first event = rw cons-append refl

event_apart :
    (event name : String)
    → first_code name ≢ b'$'
    → (str_eq name ("$awaitEvent:" <> event) ≡ false)
      × (str_eq ("$awaitEvent:" <> event) name ≡ false)
event_apart event name h = (
  apart name ("$awaitEvent:" <> event) (λ e. h (e ∙ event_first event)),
  apart ("$awaitEvent:" <> event) name (λ e. h (sym e ∙ event_first event)),
)

charge_apart : (event : String) → str_eq "charge-payment" ("$awaitEvent:" <> event) ≡ false
unfolding first_code
charge_apart event = (event_apart event "charge-payment" (λ e. omega (arith, e))).0

mail_apart : (event : String) → str_eq ("$awaitEvent:" <> event) "send-email" ≡ false
unfolding first_code
mail_apart event = (event_apart event "send-email" (λ e. omega (arith, e))).1

module _ {B : Backend} where
  -- The first use of a name has the name itself as its checkpoint.
  first_use :
      (name : String) (r : Run B)
      → lookup name r.ctx.step_name_counter ≡ none
      → checkpoint_of name r ≡ name
  unfolding next_checkpoint_name numbered
  first_use name r e = rw e refl

  -- A name that is not used stays unused when another one is.
  still_unused :
      (j name : String) (r s : Run B)
      → s.ctx.step_name_counter ≡ (named name r).ctx.step_name_counter
      → str_eq name j ≡ false
      → lookup j r.ctx.step_name_counter ≡ none
      → lookup j s.ctx.step_name_counter ≡ none
  unfolding next_checkpoint_name
  still_unused j name r s e other unused =
      ap (λ (m : Map ℕ). lookup j m) e
      ∙ rw
          (
            lookup-insert j name (unwrap_or (lookup name r.ctx.step_name_counter) 0 + 1)
                r.ctx.step_name_counter,
            other,
          )
          unused

  unused_at_first :
      (name : String) (r : Run B)
      → r.ctx.step_name_counter ≡ []
      → lookup name r.ctx.step_name_counter ≡ none
  unfolding lookup
  unused_at_first name r e = ap (λ (m : Map ℕ). lookup name m) e

  kept :
      {T : Type 0} (c : Codec T) (k name : String) (t : T) (r s : Run B)
      → k ≡ name
      → Keeps r s
      → Holds c k t r
      → Holds c name t s
  kept c k name t r s same keeps (v, found, back) =
      (v, subst (λ (k : String). cached_at k s ≡ some v) same (keeps k v found), back)

module _ {B : Backend} (json_codec : Codec Json) (shipment_codec : Codec Shipment) where
  -- What is there once the shipment is packed and the mail is sent.
  pub record Mailed (params : OrderParams) (shipment : Shipment) (res : OrderResult) (v s : Run B)
      : Type 0 where
    pub keeps : Keeps v s
    pub mailed : (y : Json) × Holds json_codec "send-email" y s
    pub told :
        res ≡ record { order_id = params.order_id; tracking_number = shipment.tracking_number }

  notify-Mailed :
      (F : IsFaithful json_codec) (params : OrderParams) (shipment : Shipment) (v s : Run B)
      (res : OrderResult)
      → lookup "send-email" v.ctx.step_name_counter ≡ none
      → attempt (notify json_codec shipment_codec params shipment) v ≡ (ok res, s)
      → Mailed params shipment res v s
  unfolding attempt
  notify-Mailed F params shipment v s res unused e =
      let mail = pure (sent params.email) in
      let (t, x, now, last) =
        went_on (step json_codec "send-email" mail v)
          (λ _ z. (
            ok (record { order_id = params.order_id; tracking_number = shipment.tracking_number }),
            z,
          ))
          res s e in
      let same = ap (λ (m : Result OrderResult × Run B). m.1) last in
      let end : Keeps x s = λ j y found. subst (λ (s : Run B). cached_at j s ≡ some y) same found in
      let grown = step-Grows json_codec "send-email" mail v x t now in
      record {
        keeps = λ j y found. end j y (named-Keeps "send-email" v x grown j y found);
        mailed = (
          t,
          kept json_codec (checkpoint_of "send-email" v) "send-email" t x s
              (first_use "send-email" v unused) end
              (step-Holds json_codec F "send-email" mail v x t now),
        );
        told = sym (ok_injective (ap (λ (m : Result OrderResult × Run B). m.0) last));
      }

  -- The payment is charged, the shipment of this order has been packed, and the mail is sent. The
  -- result is about this order and this shipment.
  pub record Delivered (params : OrderParams) (res : OrderResult) (s : Run B) : Type 0 where
    pub shipment : Shipment
    pub charged : (y : Json) × Holds json_codec "charge-payment" y s
    pub packed : Holds shipment_codec ("$awaitEvent:" <> event_name params) shipment s
    pub mailed : (y : Json) × Holds json_codec "send-email" y s
    pub told :
        res ≡ record { order_id = params.order_id; tracking_number = shipment.tracking_number }

  -- An order is delivered once its handler returns: payment, shipment and mail each have their
  -- checkpoint, and the result is about this order and the shipment that the event brought. The run
  -- had counted no step, and what serde writes of a JSON value reads back.
  pub fulfill-Delivered :
      (F : IsFaithful json_codec) (params : OrderParams) (r s : Run B) (res : OrderResult)
      → r.ctx.step_name_counter ≡ []
      → attempt (fulfill json_codec shipment_codec r.ctx params) r ≡ (ok res, s)
      → Delivered params res s
  unfolding attempt
  fulfill-Delivered F params r s res first e =
      let packing = event_step (event_name params) one_day in
      let pay = pure (charge r.ctx.task.task_id) in
      let (t, u, now, rest) =
        went_on (step json_codec "charge-payment" pay r)
          (λ _. attempt (ship json_codec shipment_codec params)) res s e in
      let (shipment, v, now', last) =
        went_on (await_event_with_options shipment_codec (event_name params) one_day u)
          (λ sh. attempt (notify json_codec shipment_codec params sh)) res s rest in
      let charged = step-Grows json_codec "charge-payment" pay r u t now in
      let (got, packed) =
        await_event-Received shipment_codec (event_name params) one_day u v shipment now' in
      let no_event =
        still_unused packing "charge-payment" r u charged.1 (charge_apart (event_name params))
          (unused_at_first packing r first) in
      let no_mail =
        still_unused "send-email" packing u v packed.1 (mail_apart (event_name params)) (
          still_unused "send-email" "charge-payment" r u charged.1 refl
            (unused_at_first "send-email" r first)) in
      let end = notify-Mailed F params shipment v s res no_mail last in
      let from_u : Keeps u s =
        λ j y found. end.keeps j y (named-Keeps packing u v packed j y found) in
      record {
        shipment = shipment;
        charged = (
          t,
          kept json_codec (checkpoint_of "charge-payment" r) "charge-payment" t u s
              (first_use "charge-payment" r (unused_at_first "charge-payment" r first)) from_u
              (step-Holds json_codec F "charge-payment" pay r u t now),
        );
        packed =
            kept shipment_codec (checkpoint_of packing u) packing shipment v s
              (first_use packing u no_event) end.keeps got;
        mailed = end.mailed;
        told = end.told;
      }
