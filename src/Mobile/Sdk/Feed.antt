-- ===== src/Mobile/Sdk/Feed.antt =====
-- The events that the notifiers of the SDK hand out: cmd/client/mobile/main.go.
use mathlib.Core.List.{append-nil, append_assoc}
use chat_libp2p.Common.{
  ℕ, ◌+◌, ◌<◌, ◌≤◌, ◌≡◌, ◌∙◌, refl, sym, ap, subst, arith, Bool, true, false, Option, none, some,
  List, [], ◌∷◌, ◌++◌, Bytes, length, length-append, ltb, Bool-cases, inl, inr,
}
use chat_libp2p.Database.{Result, ok, err}
use chat_libp2p.Mobile.Sdk.{
  Event, Sdk, Act, ask_notifier, ask_session, end_notifier, end_session, ask_close, init_turn,
  offered, get, event_slots, new_sdk, get_notifier, open_decoded, place_stop, init_round, take_stop,
  take_event, close_sdk, offer, get_event, act, acts,
}

abbrev pub got : Option (Result Event) → List Event
got none = []
got (some (ok e)) = e ∷ []
got (some (err e)) = []

-- The event that an act hands to a front end.
abbrev pub handed : Act → Sdk → List Event
handed (get i prefer) s = got (get_event i prefer s).0
handed _ s = []

abbrev pub of_act : Act → List Event
of_act (offered e) = e ∷ []
of_act _ = []

-- The events that goroutines offer, in their order.
abbrev pub offers : List Act → List Event
offers [] = []
offers (a ∷ as') = of_act a ++ offers as'

take_in_order :
    (halted prefer : Bool) (es : List Event)
    → got (take_event halted prefer es).0 ++ (take_event halted prefer es).1 ≡ es
unfolding take_event
take_in_order false prefer [] = refl
take_in_order true prefer [] = refl
take_in_order true true (e ∷ es) = refl
take_in_order true false (e ∷ es) = refl
take_in_order false prefer (e ∷ es) = refl

get_in_order :
    (i : ℕ) (prefer : Bool) (s : Sdk)
    → got (get_event i prefer s).0 ++ (get_event i prefer s).1.events ≡ s.events
unfolding get_event
get_in_order i prefer s = elim (Bool-cases (ltb i s.notifiers.made)) [
  | inl known ↦ rw known (take_in_order (s.notifiers.halted i) prefer s.events)
  | inr unknown ↦ rw unknown refl
]

place_stop_events : (n : ℕ) (o : Option ℕ) (s : Sdk) → (place_stop n o s).events ≡ s.events
unfolding place_stop
place_stop_events n none s = refl
place_stop_events n (some old) s = refl

init_round_events : (n : ℕ) (s : Sdk) → (init_round n s).events ≡ s.events
unfolding init_round
init_round_events n s = elim (Bool-cases (s.placed n)) [
  | inl done ↦ rw done refl
  | inr waits ↦ rw waits (place_stop_events n s.stopper s)
]

take_stop_events : (o : Option ℕ) (s : Sdk) → (take_stop o s).events ≡ s.events
unfolding take_stop
take_stop_events none s = refl
take_stop_events (some old) s = refl

open_decoded_events : (o : Option Bytes) (s : Sdk) → (open_decoded o s).1.events ≡ s.events
unfolding open_decoded
open_decoded_events none s = refl
open_decoded_events (some peer) s = refl

pub offer_room :
    (e : Event) (s : Sdk) → length s.events < event_slots → (offer e s).events ≡ s.events ++ e ∷ []
unfolding offer
offer_room e s h =
    let room : ltb (length s.events) event_slots ≡ true = ground arith in rw room refl

module _ (decode_peer : Bytes → Option Bytes) where
  act_in_order :
      (a : Act) (s : Sdk)
      → length s.events + length (of_act a) ≤ event_slots
      → handed a s ++ (act decode_peer a s).events ≡ s.events ++ of_act a
  unfolding act get_notifier close_sdk
  act_in_order ask_notifier s h = sym (append-nil s.events)
  act_in_order (ask_session name) s h =
      open_decoded_events (decode_peer name) s ∙ sym (append-nil s.events)
  act_in_order (end_notifier i) s h = sym (append-nil s.events)
  act_in_order (end_session i) s h = sym (append-nil s.events)
  act_in_order ask_close s h = take_stop_events s.stopper _ ∙ sym (append-nil s.events)
  act_in_order (init_turn n) s h = init_round_events n s ∙ sym (append-nil s.events)
  act_in_order (offered e) s h = offer_room e s (omega (arith, h))
  act_in_order (get i prefer) s h = get_in_order i prefer s ∙ sym (append-nil s.events)

  -- What the front ends are handed by the notifiers during some acts.
  abbrev pub deliveries : List Act → Sdk → List Event
  deliveries [] s = []
  deliveries (a ∷ as') s = handed a s ++ deliveries as' (act decode_peer a s)

  all_in_order :
      (as' : List Act) (s : Sdk)
      → length s.events + length (offers as') ≤ event_slots
      → deliveries as' s ++ (acts decode_peer as' s).events ≡ s.events ++ offers as'
  unfolding acts
  all_in_order [] s h = sym (append-nil s.events)
  all_in_order (a ∷ as') s h =
      let s' = act decode_peer a s in
      let bound : length s.events + (length (of_act a) + length (offers as')) ≤ event_slots =
        subst (λ n. length s.events + n ≤ event_slots) (length-append (of_act a) (offers as')) h in
      let step = act_in_order a s (omega (arith, bound)) in
      let sizes : length (handed a s) + length s'.events ≡ length s.events + length (of_act a) =
        sym (length-append (handed a s) s'.events)
        ∙ ap length step
        ∙ length-append s.events (of_act a) in
      let rest = all_in_order as' s' (omega (arith, bound, sizes)) in
      append_assoc (handed a s) (deliveries as' s') (acts decode_peer as' s').events
      ∙ ap (λ es. handed a s ++ es) rest
      ∙ sym (append_assoc (handed a s) s'.events (offers as'))
      ∙ ap (λ es. es ++ offers as') step
      ∙ append_assoc s.events (of_act a) (offers as')

  -- While no more events have been offered than the channel holds, none is lost: what the notifiers handed
  -- out, in its order, and then what still waits, are the offered events in the order of the offers,
  -- whatever the other calls are and whichever notifiers are closed.
  pub events_in_order :
      (as' : List Act)
      → length (offers as') ≤ event_slots
      → deliveries as' new_sdk ++ (acts decode_peer as' new_sdk).events ≡ offers as'
  events_in_order as' h = all_in_order as' new_sdk (omega (arith, h))
