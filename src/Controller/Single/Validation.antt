-- ===== src/Controller/Single/Validation.antt =====
-- What `validateSpec` accepts, and what `Reconcile` makes of an instance that is not there.
use greatsql_operator.Prelude.{
  String, ◌≡◌, ◌≢◌, refl, subst, sym, true, false, ◌⊎◌, inl, inr, Option, none, some, arith,
  Outcome, ok, err, panic, nil_dereference, deref, Bool-cases, Option-cases,
}
use greatsql_operator.Prelude.Int.{ℤ, pos, negsuc}
use greatsql_operator.Prelude.Steps.{◌>>=◌, pure, lift}
use greatsql_operator.Api.Meta.{Key}
use greatsql_operator.Api.Pod.{ClaimTemplate}
use greatsql_operator.Api.Instance.{SingleInstance}
use greatsql_operator.Kube.Objects.{instance_kind}
use greatsql_operator.Kube.Platform.{not_found, failed, Error, bad_request, Platform, Op}
use greatsql_operator.Controller.Single.{
  nil_or_zero, get_single_instance, handle_finalizer, invalid, validate_spec,
  validate_and_add_finalizer, reconcile,
}

-- A size that is there and not 0, and a storage class.
pub record IsAccepted (s : SingleInstance) : Type 0 where
  pub size : ℤ
  pub size_set : s.spec.size ≡ some size
  pub size_not_zero : size ≢ pos 0
  pub template : ClaimTemplate
  pub template_set : s.spec.pod_spec.persistent_volume_claim_template ≡ some template
  pub class_name : String
  pub class_set : template.storage_class_name ≡ some class_name

-- What a run of `validateSpec` from `w` says of the instance: it accepts it and changes nothing; it
-- records an event and fails with the reason, for want of a size or of a storage class; or it panics,
-- for want of a claim template.
abbrev pub Verdict :
    {W : Type 0} → Platform W → SingleInstance → W → Outcome Error (Unit {0}) × W → Type 0
Verdict p s w (ok _, w') = IsAccepted s × (w' ≡ w)
Verdict p s w (err e, w') =
    ((e ≡ bad_request "size is required")
      × (w' ≡ p.event "Warning" "InvalidSpec" "size is required" w)
      × ((n : ℤ) → s.spec.size ≡ some n → n ≡ pos 0))
    ⊎ ((e ≡ bad_request "storageClassName is required")
        × (w' ≡ p.event "Warning" "InvalidSpec" "storageClassName cannot be empty" w)
        × ((t : ClaimTemplate) × (s.spec.pod_spec.persistent_volume_claim_template ≡ some t)
            × (t.storage_class_name ≡ none)))
Verdict p s w (panic f, w') =
    (f ≡ nil_dereference) × (w' ≡ w) × (s.spec.pod_spec.persistent_volume_claim_template ≡ none)

size_missing : (o : Option ℤ) → nil_or_zero o ≡ true → (n : ℤ) → o ≡ some n → n ≡ pos 0
size_missing none h n e = cc
size_missing (some (pos m)) h n e = ground arith
size_missing (some (negsuc m)) h n e = cc

size_there : (o : Option ℤ) → nil_or_zero o ≡ false → (n : ℤ) × (o ≡ some n) × (n ≢ pos 0)
size_there none h = cc
size_there (some (pos n)) h = (pos n, refl, λ e. ground arith)
size_there (some (negsuc n)) h = (negsuc n, refl, λ e. ground arith)

module _ {W : Type 0} (p : Platform W) where
  -- The part of `validateSpec` behind the test of the size.
  abbrev validate_class : SingleInstance → Op W (Unit {0})
  validate_class s = do
    template ← lift (deref s.spec.pod_spec.persistent_volume_claim_template)
    elim template.storage_class_name [
      | none ↦ invalid p "storageClassName cannot be empty" "storageClassName is required"
      | some _ ↦ pure tt
    ]

  class_Verdict :
      (s : SingleInstance) (w : W)
      → nil_or_zero s.spec.size ≡ false
      → Verdict p s w (validate_class s w)
  unfolding invalid ◌>>=◌
  class_Verdict s w there =
      let (n, size_set, positive) = size_there s.spec.size there in
      elim (Option-cases s.spec.pod_spec.persistent_volume_claim_template) [
        | inl no_template ↦ rw no_template (refl, refl, refl)
        | inr (t, template_set) ↦ elim (Option-cases t.storage_class_name) [
          | inl no_class ↦
              subst (Verdict p s w)
                {x = (
                  err (bad_request "storageClassName is required"),
                  p.event "Warning" "InvalidSpec" "storageClassName cannot be empty" w,
                )}
                {y = validate_class s w} (sym (rw (template_set, no_class)))
                (inr (refl, refl, (t, template_set, no_class)))
          | inr (c, class_set) ↦
              subst (Verdict p s w) {x = (ok tt, w)} {y = validate_class s w}
                (sym (rw (template_set, class_set)))
                (
                  record {
                    size = n;
                    size_set = size_set;
                    size_not_zero = positive;
                    template = t;
                    template_set = template_set;
                    class_name = c;
                    class_set = class_set;
                  },
                  refl,
                )
        ]
      ]

  -- On every instance `validateSpec` ends in one of these ways: it accepts a size that is not 0 and a
  -- storage class; it fails for want of one of them, after one event; or it panics where there is no
  -- claim template.
  pub validate_spec-Verdict : (s : SingleInstance) (w : W) → Verdict p s w (validate_spec p s w)
  unfolding validate_spec ◌>>=◌
  validate_spec-Verdict s w = elim (Bool-cases (nil_or_zero s.spec.size)) [
    | inl missing ↦ rw missing (inl (refl, refl, size_missing s.spec.size missing))
    | inr there ↦ rw there (class_Verdict s w there)
  ]

  -- If the instance is not there, `Reconcile` fails with "size is required", after an event, and
  -- creates nothing.
  pub reconcile_not_found :
      (req : Key) (w w' : W)
      → p.get instance_kind req w ≡ (failed not_found, w')
      → reconcile p req w ≡ (
        err (bad_request "size is required"),
        p.event "Warning" "InvalidSpec" "size is required" w',
      )
  unfolding reconcile get_single_instance handle_finalizer validate_and_add_finalizer validate_spec
      ◌>>=◌
  reconcile_not_found req w w' e = rw e
