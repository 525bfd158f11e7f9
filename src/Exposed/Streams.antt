-- ===== src/Exposed/Streams.antt =====
-- Which emitted events an observer gets.
use wotpy.Prelude.{
  ℕ, String, ◌≡◌, ◌≢◌, ◌∙◌, ap, refl, Bool, Bool-cases, inl, inr, true, false, ◌&&◌, Option, none,
  some, List, [], ◌∷◌, ◌++◌, ◌==◌, nat_eq, string_eq, eq_iff, keep, sym, arith, if◌then◌else◌,
}
use wotpy.Outcome.{Outcome, ok, raised, is_ok}
use mathlib.Core.List.{append-nil, append_assoc}
use wotpy.Dict
use wotpy.Dict.{Dict}
use wotpy.Exposed.Properties.{
  write_property_emits, handler_events, by_handler, of_property, change_event,
}
use wotpy.Thing.{Interaction, find_interaction}
use wotpy.Exposed.{
  Platform, ExposedThing, EmittedEvent, EventInit, payload, action_invocation_init, td_change_init,
  update_property, property_change, description_change, property_change_init, filtered,
  event_filter, property_change_filter, td_change_filter, on_event, emit_event, emit,
  write_property,
}

module _ (p : Platform) (slugify : String → String) where
  open p use {Value, World, Handler, call}

  -- What a subscriber of a filtered observable gets of a sequence of events: an exception in the
  -- filter ends the subscription.
  abbrev pub deliver :
      (EmittedEvent p.Value → Outcome Bool)
      → List (EmittedEvent p.Value)
      → List (EmittedEvent p.Value)
  deliver f [] = []
  deliver f (it ∷ its) =
      let rest = deliver f its in
      elim (f it) [ ok b ↦ if b then it ∷ rest else rest | raised e ↦ [] ]

  -- Writes one after the other, whatever their results.
  abbrev pub run_writes : List (String × Value) → ExposedThing p → ExposedThing p
  run_writes [] s = s
  run_writes ((name, v) ∷ ws) s = run_writes ws (write_property p slugify name v s).1

  -- What the handlers of the writes emit, and a change event for each write that succeeds
  abbrev pub emitted_events : List (String × Value) → ExposedThing p → List (EmittedEvent Value)
  emitted_events [] s = []
  emitted_events ((name, v) ∷ ws) s =
      let rest = emitted_events ws (write_property p slugify name v s).1 in
      handler_events p slugify name v s
      ++ (if is_ok (write_property p slugify name v s).0
          then change_event p slugify name v ∷ rest
          else rest)

  -- A change of the property, and no other event under the name of property changes
  abbrev pub is_change_init : String → EventInit Value → Bool
  is_change_init name (payload v) = false
  is_change_init name (property_change_init n v) = n == name
  is_change_init name (action_invocation_init n v) = false
  is_change_init name (td_change_init type method n description) = false

  abbrev pub is_change : String → EmittedEvent Value → Bool
  is_change name it = it.name == property_change && is_change_init name it.init

  abbrev pub IsPlainInit : Bool → EventInit Value → Type 0
  IsPlainInit is_named (payload v) = is_named ≡ false
  IsPlainInit is_named (property_change_init n v) = Unit
  IsPlainInit is_named (action_invocation_init n v) = is_named ≡ false
  IsPlainInit is_named (td_change_init type method n description) = is_named ≡ false

  abbrev pub ArePlain : List (EmittedEvent Value) → Type 0
  ArePlain [] = Unit
  ArePlain (it ∷ its) = IsPlainInit (it.name == property_change) it.init × ArePlain its

  -- What an observer of one property is to get of the writes
  abbrev pub observed : String → List (String × Value) → ExposedThing p → List (EmittedEvent Value)
  observed name [] s = []
  observed name ((n, v) ∷ ws) s =
      let rest = observed name ws (write_property p slugify n v s).1 in
      keep (is_change name) (handler_events p slugify n v s)
      ++ (if is_ok (write_property p slugify n v s).0 && n == name
          then change_event p slugify n v ∷ rest
          else rest)

  run_writes-events_stream :
      (ws : List (String × Value)) (s : ExposedThing p)
      → (run_writes ws s).events_stream ≡ s.events_stream ++ emitted_events ws s
  run_writes-events_stream [] s = sym (append-nil s.events_stream)
  run_writes-events_stream ((name, v) ∷ ws) s =
      let s' = write_property p slugify name v s in
      let own = handler_events p slugify name v s in
      let change = change_event p slugify name v in
      elim (Bool-cases (is_ok s'.0)) [
        | inl done ↦
            run_writes-events_stream ws s'.1
            ∙ rw ((write_property_emits p slugify s name v).2, done)
                (append_assoc s.events_stream (own ++ change ∷ []) (emitted_events ws s'.1)
                  ∙ ap (λ its. s.events_stream ++ its)
                      (append_assoc own (change ∷ []) (emitted_events ws s'.1)))
        | inr not_done ↦
            run_writes-events_stream ws s'.1
            ∙ rw ((write_property_emits p slugify s name v).2, not_done)
                (append_assoc s.events_stream (own ++ []) (emitted_events ws s'.1)
                  ∙ ap (λ its. s.events_stream ++ its)
                      (append_assoc own [] (emitted_events ws s'.1)))
      ]

  deliver-plain :
      (name : String) (it : EmittedEvent Value) (its : List (EmittedEvent Value))
      → IsPlainInit (it.name == property_change) it.init
      → deliver (property_change_filter p name) (it ∷ its) ≡ (
          if is_change name it
          then it ∷ deliver (property_change_filter p name) its
          else deliver (property_change_filter p name) its)
  unfolding property_change_filter
  deliver-plain name it its h = go it.init refl h
    where
      go :
          (init : EventInit Value)
          → it.init ≡ init
          → IsPlainInit (it.name == property_change) init
          → deliver (property_change_filter p name) (it ∷ its) ≡ (
              if is_change name it
              then it ∷ deliver (property_change_filter p name) its
              else deliver (property_change_filter p name) its)
      go (payload v) e k = ground arith
      go (property_change_init n v) e k = ground arith
      go (action_invocation_init n v) e k = ground arith
      go (td_change_init type method n description) e k = ground arith

  deliver-append :
      (name : String) (its rest : List (EmittedEvent Value))
      → ArePlain its
      → deliver (property_change_filter p name) (its ++ rest)
        ≡ keep (is_change name) its ++ deliver (property_change_filter p name) rest
  deliver-append name [] rest h = refl
  deliver-append name (it ∷ its) rest h =
      deliver-plain name it (its ++ rest) h.0 ∙ ground (arith, deliver-append name its rest h.1)

  handler_events-ArePlain :
      (name : String) (v : Value) (s : ExposedThing p)
      → ((h : Handler) (args : List Value) (d : Dict ℕ Value) (w : World)
          → ArePlain (call h args d w).1.emitted)
      → ArePlain (handler_events p slugify name v s)
  handler_events-ArePlain name v s plain = found (Dict.get name s.thing.properties)
    where
      of_handler : (o : Option Handler) → ArePlain (by_handler p slugify v s o)
      of_handler none = tt
      of_handler (some h) = plain h (v ∷ []) s.property_values s.world

      found : (o : Option Interaction) → ArePlain (of_property p slugify v s o)
      found none = tt
      found (some i) = of_handler (Dict.get i.oid (s.handlers update_property))

  deliver-emitted_events :
      (name : String) (ws : List (String × Value)) (s : ExposedThing p)
      → ((h : Handler) (args : List Value) (d : Dict ℕ Value) (w : World)
          → ArePlain (call h args d w).1.emitted)
      → deliver (property_change_filter p name) (emitted_events ws s) ≡ observed name ws s
  deliver-emitted_events name [] s plain = refl
  deliver-emitted_events name ((n, v) ∷ ws) s plain =
      let s' = write_property p slugify n v s in
      let rest = emitted_events ws s'.1 in
      deliver-append name (handler_events p slugify n v s)
        (if is_ok s'.0 then change_event p slugify n v ∷ rest else rest)
        (handler_events-ArePlain n v s plain)
      ∙ ap (λ its. keep (is_change name) (handler_events p slugify n v s) ++ its)
          (ground (
            arith,
            deliver-plain name (change_event p slugify n v) rest tt,
            deliver-emitted_events name ws s'.1 plain,
            eq_iff property_change property_change,
          ))

  -- Over any sequence of writes to the properties of a Thing, an observer of one property gets, in
  -- order, for each write the changes of the property that the write's handler emits while it runs,
  -- and then one change event with the value where the write is to the property and succeeded, and
  -- nothing else; where what handlers emit under the name of property changes is property changes.
  pub run_writes_observed :
      (name : String) (ws : List (String × Value)) (s : ExposedThing p)
      → ((h : Handler) (args : List Value) (d : Dict ℕ Value) (w : World)
          → ArePlain (call h args d w).1.emitted)
      → (added : List (EmittedEvent Value)) × ((run_writes ws s).events_stream
          ≡ s.events_stream ++ added)
        × (deliver (property_change_filter p name) added ≡ observed name ws s)
  run_writes_observed name ws s plain =
      (emitted_events ws s, run_writes-events_stream ws s, deliver-emitted_events name ws s plain)

  -- An event that is emitted by a name that finds an interaction, and that is none of the names of the
  -- changes of properties and descriptions, passes exactly the observers
  -- of events of that name.
  pub emit_event_observers :
      (s : ExposedThing p) (i : Interaction) (name other : String) (v : Value)
      → find_interaction slugify name s.thing ≡ some i
      → name ≢ property_change
      → name ≢ description_change
      → let it : EmittedEvent p.Value = record { init = payload v; name = name } in
        (emit_event p slugify name v s
          ≡ (ok tt, record s { events_stream = s.events_stream ++ it ∷ [] }))
        × (event_filter p other it ≡ ok (name == other))
        × (property_change_filter p other it ≡ ok false)
        × (td_change_filter p it ≡ ok false)
  unfolding emit_event property_change_filter td_change_filter event_filter
  emit_event_observers s i name other v f h k = (
    ground arith,
    refl,
    ground (arith, eq_iff name property_change),
    ground (arith, eq_iff name description_change),
  )

  -- An event may be emitted by the URL name of an interaction, but an observer of the event's own
  -- name does not get it.
  pub emit_event_url_name_lost :
      (s : ExposedThing p) (e : Interaction) (url : String) (v : Value)
      → find_interaction slugify url s.thing ≡ some e
      → Dict.contains e.name s.thing.events ≡ true
      → url ≢ e.name
      → (on_event p e.name s ≡ filtered (event_filter p e.name))
        × (emit_event p slugify url v s ≡ (ok tt, emit p url (payload v) s))
        × (event_filter p e.name (record { init = payload v; name = url }) ≡ ok false)
  unfolding emit_event on_event event_filter
  emit_event_url_name_lost s e url v f c h =
      (ground arith, ground arith, ground (arith, eq_iff url e.name))
