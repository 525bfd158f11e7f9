-- ===== src/Thing/Forms.antt =====
-- The autogenerated forms of an interaction.
use wotpy.Prelude.{
  ℕ, String, ◌≡◌, false, Option, List, [], ◌∷◌, ◌++◌, ◌==◌, nat_eq, nat_beq_iff, any, All, arith,
}
use wotpy.Outcome.{ok}
use wotpy.Thing.Defs.{Op, Form, Interaction, drop_form, remove_form, form_id, add_form}

abbrev pub NoForm : ℕ → List Form → Type 0
NoForm oid = All (λ f. (f.oid == oid) ≡ false)

drop_form-append :
    (form : Form) (fs : List Form) → NoForm form.oid fs → drop_form form.oid (fs ++ form ∷ []) ≡ fs
drop_form-append form [] h = ground (arith, nat_beq_iff form.oid form.oid)
drop_form-append form (f ∷ fs) h = ground (arith, drop_form-append form fs)

module _ (hash : Option String → String → String → Op → ℕ) where
  -- No two forms of the list have one ID.
  abbrev pub UniqueIds : List Form → Type 0
  UniqueIds [] = Unit
  UniqueIds (f ∷ fs) = All (λ g. (form_id hash g == form_id hash f) ≡ false) fs × UniqueIds fs

  All-snoc : (P : Form → Type 0) (fs : List Form) (g : Form) → All P fs → P g → All P (fs ++ g ∷ [])
  All-snoc P [] g h p = (p, tt)
  All-snoc P (f ∷ fs) g h p = (h.0, All-snoc P fs g h.1 p)

  All-drop_form :
      (P : Form → Type 0) (oid : ℕ) (fs : List Form) → All P fs → All P (drop_form oid fs)
  All-drop_form P oid [] h = tt
  All-drop_form P oid (f ∷ fs) h = ground (arith, All-drop_form P oid fs)

  UniqueIds-snoc :
      (fs : List Form) (g : Form)
      → UniqueIds fs
      → any (λ item. form_id hash item == form_id hash g) fs ≡ false
      → UniqueIds (fs ++ g ∷ [])
  UniqueIds-snoc [] g u h = (tt, tt)
  UniqueIds-snoc (f ∷ fs) g u h = (
    All-snoc (λ x. (form_id hash x == form_id hash f) ≡ false) fs g u.0
        (ground (
          arith,
          nat_beq_iff (form_id hash g) (form_id hash f),
          nat_beq_iff (form_id hash f) (form_id hash g),
        )),
    UniqueIds-snoc fs g u.1 (ground arith),
  )

  UniqueIds-drop_form : (oid : ℕ) (fs : List Form) → UniqueIds fs → UniqueIds (drop_form oid fs)
  UniqueIds-drop_form oid [] u = tt
  UniqueIds-drop_form oid (f ∷ fs) u = ground (
    arith,
    UniqueIds-drop_form oid fs,
    All-drop_form (λ x. (form_id hash x == form_id hash f) ≡ false) oid fs,
  )

  add_form-eq_snoc :
      (self next : Interaction) (form : Form)
      → add_form hash form self ≡ ok next
      → (next.autogenerated_forms ≡ self.autogenerated_forms ++ form ∷ [])
        × (any (λ item. form_id hash item == form_id hash form) self.autogenerated_forms ≡ false)
  unfolding add_form
  add_form-eq_snoc self next form h = (ground arith, ground arith)

  -- An accepted `add_form` keeps the IDs of the autogenerated forms unique, and removing the form again
  -- does so too.
  pub add_form-UniqueIds :
      (self next : Interaction) (form : Form)
      → UniqueIds self.autogenerated_forms
      → add_form hash form self ≡ ok next
      → UniqueIds next.autogenerated_forms × UniqueIds (remove_form form next).autogenerated_forms
  unfolding remove_form
  add_form-UniqueIds self next form u h =
      let (longer, fresh) = add_form-eq_snoc self next form h in
      let unique : UniqueIds next.autogenerated_forms =
        rw longer (UniqueIds-snoc self.autogenerated_forms form u fresh) in
      (unique, UniqueIds-drop_form form.oid next.autogenerated_forms unique)

  -- A form that is added, where the interaction does not hold that form yet, and is removed again
  -- leaves the interaction as it was.
  pub remove_form-add_form :
      (self next : Interaction) (form : Form)
      → NoForm form.oid self.autogenerated_forms
      → add_form hash form self ≡ ok next
      → remove_form form next ≡ self
  unfolding add_form remove_form
  remove_form-add_form self next form u h =
      ground (arith, drop_form-append form self.autogenerated_forms)
