-- ===== src/Servient/Forms.antt =====
-- The loops of wotpy/wot/servient.py over the interactions of a Thing, which clean and rebuild the
-- autogenerated forms. Things are objects: `Heap` has the state of each by its identity.
use wotpy.Prelude.{
  ℕ, String, Bool, false, Option, none, some, List, [], ◌∷◌, ◌==◌, nat_eq, string_eq, keep,
  if◌then◌else◌,
}
use wotpy.Outcome.{Outcome, ok, raised, Exec, pure, modify, ◌>>◌, for_each}
use wotpy.Dict.{Dict, values}
use wotpy.Thing.{Op, Form, Interaction, Thing, forms, clean_forms, remove_form, add_form}
use wotpy.ThingSet
use wotpy.ThingSet.{ThingSet, ExposedRef}

abbrev pub Heap : Type 0
Heap = ℕ → Thing

abbrev pub update : ℕ → Thing → Heap → Heap
update oid t heap n = if n == oid then t else heap n

-- `for x in d.values(): body(x)`, for a body that changes `x` and what is around.
module _ {K A W : Type 0} where
  abbrev pub visit_rest :
      K
      → Dict K A
      → Outcome (Unit {0}) × (A × W)
      → (W → Outcome (Unit {0}) × (Dict K A × W))
      → Outcome (Unit {0}) × (Dict K A × W)
  visit_rest k d (ok _, (a, w)) more = let (r, (d', w')) = more w in (r, ((k, a) ∷ d', w'))
  visit_rest k d (raised e, (a, w)) more = (raised e, ((k, a) ∷ d, w))

  abbrev pub visit :
      (A → W → Outcome (Unit {0}) × (A × W)) → Dict K A → W → Outcome (Unit {0}) × (Dict K A × W)
  visit body [] w = (ok tt, ([], w))
  visit body ((k, a) ∷ d) w = visit_rest k d (body a w) (visit body d)

abbrev alone :
    Exec Interaction (Unit {0})
    → Interaction
    → Unit {0}
    → Outcome (Unit {0}) × (Interaction × Unit {0})
alone body i w = let (r, i') = body i in (r, (i', w))

abbrev pub visit_dict : Exec Interaction (Unit {0}) → Exec (Dict String Interaction) (Unit {0})
visit_dict body d = let (r, (d', w)) = visit (alone body) d tt in (r, d')

-- `for interaction in exposed_thing.thing.interactions: body(interaction)`
unfoldable pub visit_thing : Exec Interaction (Unit {0}) → Exec Thing (Unit {0})
visit_thing body = do
  λ t. let (r, d) = visit_dict body t.properties in (r, record t { properties = d })
  λ t. let (r, d) = visit_dict body t.actions in (r, record t { actions = d })
  λ t. let (r, d) = visit_dict body t.events in (r, record t { events = d })

abbrev pub remove_forms : List Form → Interaction → Interaction
remove_forms [] i = i
remove_forms (f ∷ fs) i = remove_forms fs (remove_form f i)

abbrev pub has_protocol : String → Option String → Bool
has_protocol protocol none = false
has_protocol protocol (some q) = q == protocol

-- The body of the loop of `_clean_protocol_forms`.
unfoldable pub clean_protocol : String → Interaction → Interaction
clean_protocol protocol i =
    remove_forms (keep (λ (f : Form). has_protocol protocol f.protocol) (forms i)) i

-- wotpy/protocols/server.py: the state of a server that the servient uses, and the two methods that
-- each binding implements.
pub record Server : Type 0 where
  pub protocol : String
  pub exposed_thing_set : ThingSet
  pub build_forms : String → Interaction → List Form
  pub build_base_url : String → Thing → String

module _ (hash : Option String → String → String → Op → ℕ) where
  abbrev pub keep_or_take : Interaction → Outcome Interaction → Outcome (Unit {0}) × Interaction
  keep_or_take i (ok j) = (ok tt, j)
  keep_or_take i (raised e) = (raised e, i)

  -- `interaction.add_form(form)`, and the loop over the built forms
  abbrev pub add_one : Form → Exec Interaction (Unit {0})
  add_one form i = keep_or_take i (add_form hash form i)

  unfoldable pub add_built_forms : String → Server → Exec Interaction (Unit {0})
  add_built_forms hostname server i = for_each add_one (server.build_forms hostname i) i

  abbrev on_thing : ℕ → Exec Thing (Unit {0}) → Exec Heap (Unit {0})
  on_thing oid body heap = let (r, t) = body (heap oid) in (r, update oid t heap)

  -- `_clean_protocol_forms` and `_add_interaction_forms`. Their assertions hold for the elements of
  -- the loops that call them.
  unfoldable pub clean_protocol_forms : String → ExposedRef → Exec Heap (Unit {0})
  clean_protocol_forms protocol x =
      on_thing x.thing (visit_thing (modify (clean_protocol protocol)))

  unfoldable pub add_interaction_forms : String → Server → ExposedRef → Exec Heap (Unit {0})
  add_interaction_forms hostname server x =
      on_thing x.thing (visit_thing (add_built_forms hostname server))

  -- `_regenerate_server_forms`, over the ExposedThings of the servient
  unfoldable pub regenerate_server_forms : String → ThingSet → Server → Exec Heap (Unit {0})
  regenerate_server_forms hostname things server =
      for_each
        (λ x. do
          clean_protocol_forms server.protocol x
          (if ThingSet.contains x server.exposed_thing_set
              then add_interaction_forms hostname server x
              else pure tt))
        (values things)

  -- `_clean_forms`
  unfoldable pub clean_all_forms : ThingSet → Exec Heap (Unit {0})
  clean_all_forms things =
      for_each (λ x. on_thing x.thing (visit_thing (modify clean_forms))) (values things)
