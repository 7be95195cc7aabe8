-- ===== src/Pkg/Event.antt =====
-- internal/pkg/event/event.go: the dispatcher of events. A listener changes a state that the
-- listeners share; the lock adds nothing to the sequential model.
use golang_base.Base.{
  Option, none, some, List, [], ◌∷◌, ◌++◌, Text, ◌==◌, eq_of_test, Dict, lookup, insert,
  lookup-insert, if◌then◌else◌, ◌≡◌, refl, sym, ap, ◌∙◌, inl, inr, Bool-cases,
}

abbrev pub Listener : Type 0 → Type 0 → Type 0
Listener P S = P → S → S

-- The listeners of each event, in the order of their subscription.
abbrev pub Dispatcher : Type 0 → Type 0 → Type 0
Dispatcher P S = Dict (List (Listener P S))

module _ {P S : Type 0} where
  unfoldable pub new_dispatcher : Dispatcher P S
  new_dispatcher = []

  -- A missing key reads as no listeners.
  abbrev pub or_nil : Option (List (Listener P S)) → List (Listener P S)
  or_nil none = []
  or_nil (some ls) = ls

  abbrev pub listeners_of : Text → Dispatcher P S → List (Listener P S)
  listeners_of event_name d = or_nil (lookup event_name d)

  unfoldable pub subscribe : Text → Listener P S → Dispatcher P S → Dispatcher P S
  subscribe event_name listener d = insert event_name (listeners_of event_name d ++ listener ∷ []) d

  -- `for _, handler := range handlers { handler(payload) }`
  unfoldable pub call_all : List (Listener P S) → P → S → S
  call_all [] payload s = s
  call_all (handler ∷ handlers) payload s = call_all handlers payload (handler payload s)

  unfoldable pub dispatch : Dispatcher P S → Text → P → S → S
  dispatch d event_name payload s = elim (lookup event_name d) [
    | none ↦ s
    | some handlers ↦ call_all handlers payload s
  ]

  call_all-append :
      (hs : List (Listener P S)) (l : Listener P S) (payload : P) (s : S)
      → call_all (hs ++ l ∷ []) payload s ≡ l payload (call_all hs payload s)
  unfolding call_all
  call_all-append [] l payload s = refl
  call_all-append (h ∷ hs) l payload s = call_all-append hs l payload (h payload s)

  call_found :
      (found : Option (List (Listener P S))) (payload : P) (s : S)
      → (elim found [ none ↦ s | some handlers ↦ call_all handlers payload s ])
        ≡ call_all (or_nil found) payload s
  unfolding call_all
  call_found none payload s = refl
  call_found (some handlers) payload s = refl

  dispatch-listeners :
      (d : Dispatcher P S) (event_name : Text) (payload : P) (s : S)
      → dispatch d event_name payload s ≡ call_all (listeners_of event_name d) payload s
  unfolding dispatch
  dispatch-listeners d event_name payload s = call_found (lookup event_name d) payload s

  listeners_of-subscribe :
      (d : Dispatcher P S) (event_name other : Text) (listener : Listener P S)
      → listeners_of other (subscribe event_name listener d) ≡ (
          if event_name == other
          then listeners_of event_name d ++ listener ∷ []
          else listeners_of other d)
  unfolding subscribe
  listeners_of-subscribe d event_name other listener =
      let ls = listeners_of event_name d ++ listener ∷ [] in
      ap or_nil (lookup-insert event_name other ls d) ∙ elim (Bool-cases (event_name == other)) [
        | inl same ↦ rw same refl
        | inr apart ↦ rw apart refl
      ]

  -- After Subscribe, Dispatch of this event calls the new listener last, after all that it called
  -- before; Dispatch of any other event does what it did.
  pub dispatch-subscribe :
      (d : Dispatcher P S) (event_name other : Text) (listener : Listener P S) (payload : P) (s : S)
      → dispatch (subscribe event_name listener d) other payload s ≡ (
          if event_name == other
          then listener payload (dispatch d other payload s)
          else dispatch d other payload s)
  dispatch-subscribe d event_name other listener payload s =
      let after = subscribe event_name listener d in
      let called = dispatch-listeners after other payload s in
      let listed = listeners_of-subscribe d event_name other listener in
      elim (Bool-cases (event_name == other)) [
        | inr apart ↦ rw apart (
            called
            ∙ ap (λ ls. call_all ls payload s) (rw apart at listed)
            ∙ sym (dispatch-listeners d other payload s))
        | inl same ↦
            let there : listeners_of other after ≡ listeners_of other d ++ listener ∷ [] =
              (rw same at listed)
              ∙ ap (λ e. listeners_of e d ++ listener ∷ []) (eq_of_test event_name other same) in
            rw same (
              called
              ∙ ap (λ ls. call_all ls payload s) there
              ∙ call_all-append (listeners_of other d) listener payload s
              ∙ ap (listener payload) (sym (dispatch-listeners d other payload s)))
      ]
