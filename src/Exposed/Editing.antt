-- ===== src/Exposed/Editing.antt =====
-- Adding and removing interactions of an ExposedThing.
use wotpy.Prelude.{
  ℕ, String, ◌≡◌, ◌∙◌, refl, sym, none, some, List, [], ◌∷◌, ◌++◌, nat_eq, string_eq, eq_iff,
  nat_beq_iff, arith,
}
use wotpy.Outcome.{Outcome, ok, raised, Error, value_error}
use wotpy.Dict
use wotpy.Dict.{get}
use wotpy.Dict.Laws.{get-set}
use wotpy.Thing.{
  Form, Fragment, Interaction, Thing, InteractionType, dict_of, with_dict, property, action, event,
  find_interaction, add_interaction, new_interaction,
}
use wotpy.Thing.WellFormed.{IsWellFormed, add_interaction-IsWellFormed, find_interaction-add}
use mathlib.Core.Path.{subst}
use wotpy.Exposed.Properties.{read_default, find_interaction-property}
use wotpy.Exposed.{
  Platform, ExposedThing, td_change_init, description_change, added_method, property_type, emit,
  retrieve_property, read_property, add_property, set_property_value,
}

with_dict_oid :
    (k : InteractionType) (d : Dict.Dict String Interaction) (t : Thing)
    → (with_dict k d t).oid ≡ t.oid
with_dict_oid property d t = refl
with_dict_oid action d t = refl
with_dict_oid event d t = refl

module _ (p : Platform) (slugify : String → String) where
  open p use {Value, Handler, describe}

  announced : Interaction → Thing → Value → Value → ExposedThing p → ExposedThing p
  announced i t v d s =
      emit p description_change (td_change_init property_type added_method i.name (some d))
        (set_property_value p i v (record s { thing = t }))

  -- What a successful `add_property` did.
  record Added (s u : ExposedThing p) (oid : ℕ) (name : String) (v : Value) : Type 0 where
    i : Interaction
    t : Thing
    d : Value
    named : i.name ≡ name
    is_oid : i.oid ≡ oid
    kind : i.kind ≡ property
    stored : add_interaction slugify i s.thing ≡ ok t
    result : u ≡ announced i t v d s

  new_interaction-fields :
      (oid thing : ℕ) (name : String) (init : Fragment) (forms : List Form) (i : Interaction)
      → new_interaction oid thing name property init forms ≡ ok i
      → (i.name ≡ name) × (i.oid ≡ oid) × (i.kind ≡ property)
  unfolding new_interaction
  new_interaction-fields oid thing name init forms i h = (ground arith, ground arith, ground arith)

  add_property-Added :
      (s u : ExposedThing p) (oid : ℕ) (name : String) (init : Fragment) (forms : List Form)
      (v : Value)
      → add_property p slugify oid name init forms v s ≡ (ok tt, u)
      → Added s u oid name v
  unfolding add_property announced
  add_property-Added s u oid name init forms v h =
      built (new_interaction oid s.thing.oid name property init forms) refl
    where
      described :
          (i : Interaction) (t : Thing) (o : Outcome Value)
          → new_interaction oid s.thing.oid name property init forms ≡ ok i
          → add_interaction slugify i s.thing ≡ ok t
          → describe t ≡ o
          → Added s u oid name v
      described i t (raised e) hi ht hd = absurd (ground arith)
      described i t (ok d) hi ht hd =
          let (named, is_oid, kind) = new_interaction-fields oid s.thing.oid name init forms i hi in
          record {
            i = i;
            t = t;
            d = d;
            named = named;
            is_oid = is_oid;
            kind = kind;
            stored = ht;
            result = ground arith;
          }

      stored :
          (i : Interaction) (o : Outcome Thing)
          → new_interaction oid s.thing.oid name property init forms ≡ ok i
          → add_interaction slugify i s.thing ≡ o
          → Added s u oid name v
      stored i (raised e) hi ht = absurd (ground arith)
      stored i (ok t) hi ht = described i t (describe t) hi ht refl

      built :
          (o : Outcome Interaction)
          → new_interaction oid s.thing.oid name property init forms ≡ o
          → Added s u oid name v
      built (raised e) hi = absurd (ground arith)
      built (ok i) hi = stored i (add_interaction slugify i s.thing) hi refl

  get-properties-add :
      (y : Interaction) (t u : Thing)
      → y.kind ≡ property
      → add_interaction slugify y t ≡ ok u
      → get y.name u.properties ≡ some y
  unfolding add_interaction
  get-properties-add y t u k h =
      ground (arith, get-set y.name y.name y t.properties, eq_iff y.name y.name)

  -- A successful `add_property` keeps the Thing well formed, makes the property the one that its name
  -- finds, leaves it with the given value for a read, and emits one event, the change of the
  -- description. (The identity of the new object has no read handler.)
  pub add_property_lem :
      (s u : ExposedThing p) (oid : ℕ) (name : String) (init : Fragment) (forms : List Form)
      (v : Value)
      → IsWellFormed slugify s.thing
      → get oid (s.handlers retrieve_property) ≡ none
      → add_property p slugify oid name init forms v s ≡ (ok tt, u)
      → IsWellFormed slugify u.thing
        × ((i : Interaction) × (find_interaction slugify name u.thing ≡ some i) × (i.oid ≡ oid))
        × (read_property p slugify name u ≡ (ok v, u))
        × ((d : Value) × (u.events_stream
              ≡ s.events_stream
                ++ (record {
                  init = td_change_init property_type added_method name (some d);
                  name = description_change;
                })
                  ∷ []))
  unfolding announced
  add_property_lem s u oid name init forms v w none_set h =
      let a = add_property-Added s u oid name init forms v h in
      let w' : IsWellFormed slugify a.t =
        add_interaction-IsWellFormed slugify a.i s.thing a.t w a.stored in
      let here : get name a.t.properties ≡ some a.i =
        subst (λ n. get n a.t.properties ≡ some a.i) a.named
          (get-properties-add a.i s.thing a.t a.kind a.stored) in
      let unset : get a.i.oid (s.handlers retrieve_property) ≡ none = rw a.is_oid none_set in
      let reads : read_property p slugify name (announced a.i a.t v a.d s)
          ≡ (ok v, announced a.i a.t v a.d s) =
        read_default p slugify (announced a.i a.t v a.d s) a.i name w' here unset
        ∙ rw (get-set a.i.oid a.i.oid v s.property_values)
            (ground (arith, nat_beq_iff a.i.oid a.i.oid)) in
      (
        rw a.result w',
        (
          a.i,
          subst (λ x. find_interaction slugify name x.thing ≡ some a.i) (sym a.result)
              (find_interaction-property slugify a.t a.i name w' here),
          a.is_oid,
        ),
        subst (λ x. read_property p slugify name x ≡ (ok v, x)) (sym a.result) reads,
        (a.d, ground (arith, a.result, a.named)),
      )

  new_interaction-again :
      (oid again thing : ℕ) (name : String) (init : Fragment) (forms : List Form) (i : Interaction)
      → new_interaction oid thing name property init forms ≡ ok i
      → (j : Interaction) × (new_interaction again thing name property init forms ≡ ok j)
        × (j.name ≡ name)
        × (j.thing ≡ thing)
  unfolding new_interaction
  new_interaction-again oid again thing name init forms i h =
      (record i { oid = again }, ground arith, ground arith, ground arith)

  add_interaction-oid :
      (y : Interaction) (t u : Thing) → add_interaction slugify y t ≡ ok u → u.oid ≡ t.oid
  unfolding add_interaction
  add_interaction-oid y t u h =
      ground (arith, with_dict_oid y.kind (Dict.set y.name y (dict_of y.kind t)) t)

  refused :
      (oid : ℕ) (name : String) (init : Fragment) (forms : List Form) (v : Value)
      (s : ExposedThing p) (i j : Interaction)
      → new_interaction oid s.thing.oid name property init forms ≡ ok j
      → j.name ≡ name
      → j.thing ≡ s.thing.oid
      → find_interaction slugify name s.thing ≡ some i
      → (add_property p slugify oid name init forms v s).0
        ≡ raised (value_error "Duplicate Interaction")
  unfolding add_property add_interaction
  refused oid name init forms v s i j hj n l f = ground (arith, nat_beq_iff j.thing s.thing.oid)

  -- `add_property` is not atomic: where the description of the changed Thing is refused, the call
  -- raises and emits nothing, but the property is in the Thing, so that a second call with the same
  -- name raises for a duplicate.
  pub add_property_undescribed :
      (s : ExposedThing p) (oid again : ℕ) (name : String) (init : Fragment) (forms : List Form)
      (v : Value) (i : Interaction) (t : Thing) (e : Error)
      → IsWellFormed slugify s.thing
      → new_interaction oid s.thing.oid name property init forms ≡ ok i
      → add_interaction slugify i s.thing ≡ ok t
      → describe t ≡ raised e
      → (add_property p slugify oid name init forms v s
          ≡ (raised e, set_property_value p i v (record s { thing = t })))
        × (find_interaction slugify name t ≡ some i)
        × ((add_property p slugify again name init forms v (record s { thing = t })).0
            ≡ raised (value_error "Duplicate Interaction"))
  add_property_undescribed s oid again name init forms v i t e w hi ht hd =
      let (named, is_oid, kind) = new_interaction-fields oid s.thing.oid name init forms i hi in
      let found : find_interaction slugify name t ≡ some i =
        subst (λ n. find_interaction slugify n t ≡ some i) named
          (rw (find_interaction-add slugify i s.thing t i.name w ht)
            (ground (arith, eq_iff i.name i.name))) in
      let (j, hj, j_named, j_thing) =
        new_interaction-again oid again s.thing.oid name init forms i hi in
      (
        unfold add_property in ground arith,
        found,
        refused again name init forms v (record s { thing = t }) i j
            (rw (add_interaction-oid i s.thing t ht) hj) j_named
            (j_thing ∙ sym (add_interaction-oid i s.thing t ht)) found,
      )
