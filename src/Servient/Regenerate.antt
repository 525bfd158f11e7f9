-- ===== src/Servient/Regenerate.antt =====
-- What the regeneration of forms does to one interaction.
use wotpy.Prelude.{
  ℕ, String, ◌≡◌, ◌∙◌, refl, ap, sym, Bool, Bool-cases, true, not, Option, none, List, [], ◌∷◌,
  ◌++◌, nat_eq, string_eq, nat_beq_iff, inl, inr, All, keep, arith,
}
use mathlib.Core.List.{append_assoc, append-nil}
use wotpy.Outcome.{Outcome, ok, raised, is_ok, for_each, go_on}
use wotpy.Thing.{Op, Form, Interaction, forms, drop_form, remove_form, add_form}
use wotpy.Thing.Forms.{NoForm}
use wotpy.Servient.Forms.{
  Server, has_protocol, remove_forms, clean_protocol, add_one, add_built_forms,
}

-- No two forms of the list are one object.
abbrev pub UniqueForms : List Form → Type 0
UniqueForms [] = Unit
UniqueForms (f ∷ fs) = NoForm f.oid fs × UniqueForms fs

abbrev of_protocol : String → Form → Bool
of_protocol protocol f = has_protocol protocol f.protocol

abbrev not_of_protocol : String → Form → Bool
not_of_protocol protocol f = not (has_protocol protocol f.protocol)

abbrev drop_forms : List Form → List Form → List Form
drop_forms [] fs = fs
drop_forms (g ∷ gs) fs = drop_forms gs (drop_form g.oid fs)

remove_forms-eq_drop :
    (gs : List Form) (i : Interaction)
    → remove_forms gs i ≡ record i { autogenerated_forms = drop_forms gs i.autogenerated_forms }
unfolding remove_form
remove_forms-eq_drop [] i = refl
remove_forms-eq_drop (g ∷ gs) i = remove_forms-eq_drop gs (remove_form g i)

drop_forms-cons :
    (f : Form) (gs fs : List Form) → NoForm f.oid gs → drop_forms gs (f ∷ fs) ≡ f ∷ drop_forms gs fs
drop_forms-cons f [] fs h = refl
drop_forms-cons f (g ∷ gs) fs h = ground (
  arith,
  drop_forms-cons f gs (drop_form g.oid fs),
  nat_beq_iff f.oid g.oid,
  nat_beq_iff g.oid f.oid,
)

NoForm-keep : (p : Form → Bool) (oid : ℕ) (fs : List Form) → NoForm oid fs → NoForm oid (keep p fs)
NoForm-keep p oid [] h = tt
NoForm-keep p oid (f ∷ fs) h = ground (arith, NoForm-keep p oid fs)

drop_forms-keep :
    (p : Form → Bool) (fs : List Form)
    → UniqueForms fs
    → drop_forms (keep p fs) fs ≡ keep (λ f. not (p f)) fs
drop_forms-keep p [] u = refl
drop_forms-keep p (f ∷ fs) u = elim (Bool-cases (p f)) [
  | inl out ↦ rw out (ground (arith, drop_forms-keep p fs, nat_beq_iff f.oid f.oid))
  | inr stays ↦ rw stays (
      drop_forms-cons f (keep p fs) fs (NoForm-keep p f.oid fs u.0)
      ∙ ap (λ r. f ∷ r) (drop_forms-keep p fs u.1))
]

keep-append {ℓ} :
    {A : Type ℓ} (p : A → Bool) (xs ys : List A) → keep p (xs ++ ys) ≡ keep p xs ++ keep p ys
keep-append p [] ys = refl
keep-append p (x ∷ xs) ys = ground (arith, keep-append p xs ys)

keep-none :
    (protocol : String) (fs : List Form)
    → All (λ (f : Form). f.protocol ≡ none) fs
    → keep (of_protocol protocol) fs ≡ []
keep-none protocol [] h = refl
keep-none protocol (f ∷ fs) h = ground (arith, keep-none protocol fs)

-- `_clean_protocol_forms` takes out exactly the autogenerated forms of the protocol.
clean_protocol_lem :
    (protocol : String) (i : Interaction)
    → All (λ (f : Form). f.protocol ≡ none) i.td_forms
    → UniqueForms i.autogenerated_forms
    → clean_protocol protocol i
      ≡ record i { autogenerated_forms = keep (not_of_protocol protocol) i.autogenerated_forms }
unfolding clean_protocol forms
clean_protocol_lem protocol i described u =
    rw
      (
        keep-append (of_protocol protocol) i.td_forms i.autogenerated_forms,
        keep-none protocol i.td_forms described,
      )
      (remove_forms-eq_drop (keep (of_protocol protocol) i.autogenerated_forms) i
        ∙ ap (λ r. record i { autogenerated_forms = r })
            (drop_forms-keep (of_protocol protocol) i.autogenerated_forms u))

module _ (hash : Option String → String → String → Op → ℕ) where
  add_one-ok :
      (f : Form) (i : Interaction)
      → is_ok (add_one hash f i).0 ≡ true
      → (add_one hash f i).1 ≡ record i { autogenerated_forms = i.autogenerated_forms ++ f ∷ [] }
  unfolding add_form
  add_one-ok f i h = ground arith

  add_all-ok :
      (fs : List Form) (i : Interaction)
      → is_ok (for_each (add_one hash) fs i).0 ≡ true
      → (for_each (add_one hash) fs i).1
        ≡ record i { autogenerated_forms = i.autogenerated_forms ++ fs }
  add_all-ok [] i h =
      ap (λ r. record i { autogenerated_forms = r }) (sym (append-nil i.autogenerated_forms))
  add_all-ok (f ∷ fs) i h = go (add_one hash f i) (add_one-ok f i) (add_all-ok fs) h
    where
      go :
          (r : Outcome (Unit {0}) × Interaction)
          → (is_ok r.0 ≡ true
              → r.1 ≡ record i { autogenerated_forms = i.autogenerated_forms ++ f ∷ [] })
          → ((j : Interaction)
              → is_ok (for_each (add_one hash) fs j).0 ≡ true
              → (for_each (add_one hash) fs j).1
                ≡ record j { autogenerated_forms = j.autogenerated_forms ++ fs })
          → is_ok (go_on r.0 (λ _. for_each (add_one hash) fs) r.1).0 ≡ true
          → (go_on r.0 (λ _. for_each (add_one hash) fs) r.1).1
            ≡ record i { autogenerated_forms = i.autogenerated_forms ++ f ∷ fs }
      go (raised e, j) first rest fin = absurd (ground arith)
      go (ok _, j) first rest fin =
          rest j fin
          ∙ rw (first refl) (
              ap (λ r. record i { autogenerated_forms = r })
                (append_assoc i.autogenerated_forms (f ∷ []) fs))

  -- Where the forms of a server are rebuilt for an interaction and no form is a duplicate, and the forms
  -- of its description name no protocol and no autogenerated form stands twice, the forms
  -- of the description stay, the autogenerated forms of other protocols stay, in their order, and the
  -- forms that the server builds follow; old forms of its protocol are gone.
  pub regenerate_interaction :
      (hostname : String) (server : Server) (i next : Interaction)
      → All (λ (f : Form). f.protocol ≡ none) i.td_forms
      → UniqueForms i.autogenerated_forms
      → add_built_forms hash hostname server (clean_protocol server.protocol i) ≡ (ok tt, next)
      → (next.td_forms ≡ i.td_forms)
        × (next.autogenerated_forms
            ≡ keep
                (λ (f : Form). not (has_protocol server.protocol f.protocol))
                i.autogenerated_forms
              ++ server.build_forms hostname (clean_protocol server.protocol i))
  unfolding add_built_forms
  regenerate_interaction hostname server i next described u done =
      let cleaned = clean_protocol server.protocol i in
      let fine = ap (λ (r : Outcome (Unit {0}) × Interaction). is_ok r.0) done in
      let added =
        sym (ap (λ (r : Outcome (Unit {0}) × Interaction). r.1) done)
        ∙ add_all-ok (server.build_forms hostname cleaned) cleaned fine in
      let clean = clean_protocol_lem server.protocol i described u in
      (
        ap (λ (x : Interaction). x.td_forms) added ∙ ap (λ (x : Interaction). x.td_forms) clean,
        ap (λ (x : Interaction). x.autogenerated_forms) added
            ∙ ap (λ (x : Interaction). x.autogenerated_forms ++ server.build_forms hostname cleaned)
                clean,
      )
