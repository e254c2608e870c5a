-- ===== src/Controller/Single/Scope/Reconcile.antt =====
-- The requests of `Reconcile`.
use greatsql_operator.Prelude.{
  ◌≡◌, refl, sym, subst, ◌⊎◌, inl, inr, Option, none, some, Outcome, ok, err, panic,
}
use greatsql_operator.Prelude.Steps.{◌>>=◌, pure}
use greatsql_operator.Api.Meta.{Key, Raw}
use greatsql_operator.Api.Instance.{SingleInstance, zero_instance}
use greatsql_operator.Kube.Objects.{instance_kind}
use greatsql_operator.Kube.Platform.{
  Reply, done, failed, not_found, already_exists, conflict, other, Error, Platform, Op, request,
}
use greatsql_operator.Kube.Ensures.{Met, Ensures-within}
use greatsql_operator.Kube.Keeps.{
  Keeps, OnDone, KeepsKeys, Keeps-pure, Keeps-fail, Keeps-attempt, Keeps-bind,
}
use greatsql_operator.Utils.Finalizer
use greatsql_operator.Controller.Single.{
  or_ignore, get_single_instance, handle_finalizer, invalid, validate_spec,
  validate_and_add_finalizer, reconcile,
}
use greatsql_operator.Controller.Single.Create.{create_resources}
use greatsql_operator.Controller.Single.Update.{watch_resource}
use greatsql_operator.Controller.Single.Validation.{Verdict, validate_spec-Verdict}
use greatsql_operator.Controller.Single.Scope.{
  KeptByWrites, KeptInScope, KeptByUpdates, KeptByCleanup, updates_of, cleanup_of, Of,
}
use greatsql_operator.Controller.Single.Scope.Cleanup.{add_finalizer-Keeps, release-Keeps}
use greatsql_operator.Controller.Single.Scope.Creation.{create_resources-Keeps}
use greatsql_operator.Controller.Single.Scope.Update.{watch_resource-Keeps}

-- The instance of a request, or the zero instance that stands for a missing one.
abbrev pub Found : Key → SingleInstance → Type 0
Found req s = Of req s ⊎ (s ≡ zero_instance)

module _ {W : Type 0} (p : Platform W) (keys : KeepsKeys p) (req : Key) (I : W → Type 0)
    (inv : KeptByUpdates p req I) where
  or_ignore-Keeps :
      (r : Reply SingleInstance) → OnDone (Of req) r → Keeps I (or_ignore r) (Found req)
  or_ignore-Keeps (done s) own = Keeps-pure _ s (inl own)
  or_ignore-Keeps (failed not_found) _ = Keeps-pure _ zero_instance (inr refl)
  or_ignore-Keeps (failed already_exists) _ = Keeps-fail _ _
  or_ignore-Keeps (failed conflict) _ = Keeps-fail _ _
  or_ignore-Keeps (failed (other m)) _ = Keeps-fail _ _

  pub get_single_instance-Keeps : Keeps I (get_single_instance p req) (Found req)
  unfolding get_single_instance
  get_single_instance-Keeps =
      Keeps-bind _
        (Keeps-attempt _ (p.get instance_kind req) (inv.under_get instance_kind req refl)
          (keys.got instance_kind req))
        or_ignore-Keeps

  -- The same of an instance that is not being deleted.
  or_ignore_live-Keeps :
      (r : Reply SingleInstance)
      → OnDone (Of req) r
      → OnDone (λ s. s.meta.deletion_timestamp ≡ none) r
      → Keeps I (or_ignore r) (λ s. Found req s × (s.meta.deletion_timestamp ≡ none))
  or_ignore_live-Keeps (done s) own live = Keeps-pure _ s (inl own, live)
  or_ignore_live-Keeps (failed not_found) _ _ = Keeps-pure _ zero_instance (inr refl, refl)
  or_ignore_live-Keeps (failed already_exists) _ _ = Keeps-fail _ _
  or_ignore_live-Keeps (failed conflict) _ _ = Keeps-fail _ _
  or_ignore_live-Keeps (failed (other m)) _ _ = Keeps-fail _ _

  get_live-Keeps :
      ((w : W) → OnDone (λ s. s.meta.deletion_timestamp ≡ none) (p.get instance_kind req w).0)
      → Keeps I (get_single_instance p req) (λ s. Found req s × (s.meta.deletion_timestamp ≡ none))
  unfolding get_single_instance
  get_live-Keeps live =
      Keeps-bind _ {M = λ r. OnDone (Of req) r × OnDone (λ s. s.meta.deletion_timestamp ≡ none) r}
        (Keeps-attempt _ (p.get instance_kind req) (inv.under_get instance_kind req refl)
          (λ w. (keys.got instance_kind req w, live w)))
        λ r h. or_ignore_live-Keeps r h.0 h.1

  live_case-Keeps :
      (s : SingleInstance) (m : Op W SingleInstance) (t : Option Raw)
      → t ≡ none
      → Found req s
      → Keeps {W = W} {A = SingleInstance} I (elim t [ none ↦ pure s | some _ ↦ m ]) (Found req)
  live_case-Keeps s m none e known = Keeps-pure _ s known
  live_case-Keeps s m (some t) e known = absurd (let no_way : ⊥ = cc in no_way)

  handle_live-Keeps :
      (s : SingleInstance)
      → Found req s × (s.meta.deletion_timestamp ≡ none)
      → Keeps I (handle_finalizer p s) (Found req)
  unfolding handle_finalizer
  handle_live-Keeps s h = live_case-Keeps s _ s.meta.deletion_timestamp h.1 h.0

  Verdict-Met :
      (s : SingleInstance) (w : W) (x : Outcome Error (Unit {0}) × W)
      → Verdict p s w x
      → I w
      → Met (λ _ v. Unit {0} × I v) I x
  Verdict-Met s w (ok _, v) h kept = (tt, subst I (sym h.1) kept)
  Verdict-Met s w (err _, v) (inl h) kept = subst I (sym h.1) (inv.under_event _ _ _ w kept)
  Verdict-Met s w (err _, v) (inr h) kept = subst I (sym h.1) (inv.under_event _ _ _ w kept)
  Verdict-Met s w (panic _, v) h kept = subst I (sym h.1) kept

  validate_spec-Keeps : (s : SingleInstance) → Keeps I (validate_spec p s) (λ _. Unit)
  validate_spec-Keeps s = record {
    at = λ x kept. Verdict-Met s x _ (validate_spec-Verdict p s x) kept;
  }

  refused-Keeps : Keeps I (validate_and_add_finalizer p zero_instance) (Of req)
  unfolding validate_and_add_finalizer validate_spec invalid ◌>>=◌
  refused-Keeps = record { at = λ w kept. inv.under_event _ _ _ w kept }

  pub validate_and_add_finalizer-Keeps :
      (s : SingleInstance) → Found req s → Keeps I (validate_and_add_finalizer p s) (Of req)
  unfolding validate_and_add_finalizer
  validate_and_add_finalizer-Keeps s (inl own) =
      Keeps-bind _ (validate_spec-Keeps s) λ _ _. add_finalizer-Keeps p keys req I inv s own
  validate_and_add_finalizer-Keeps s (inr same) =
      subst (λ z. Keeps I (validate_and_add_finalizer p z) (Of req)) (sym same) refused-Keeps

module _ {W : Type 0} (p : Platform W) (keys : KeepsKeys p) (req : Key) (I : W → Type 0)
    (inv : KeptByWrites p req I) where
  -- What follows the finalizer.
  prepared-Keeps :
      (s : SingleInstance)
      → Found req s
      → Keeps I
          (do
            valid ← validate_and_add_finalizer p s
            created ← create_resources p req valid
            watch_resource p req created)
          (λ _. Unit)
  prepared-Keeps s known =
      Keeps-bind _ (validate_and_add_finalizer-Keeps p keys req I (updates_of inv) s known)
        λ valid own.
          Keeps-bind _ (create_resources-Keeps p keys req I inv valid own)
            λ created own'. watch_resource-Keeps p keys req I inv created own'

  -- If the instance of the request is not being deleted, in any world, `Reconcile` keeps what the
  -- requests other than deletions keep.
  pub reconcile_live-Keeps :
      ((w : W) → OnDone (λ s. s.meta.deletion_timestamp ≡ none) (p.get instance_kind req w).0)
      → Keeps I (reconcile p req) (λ _. Unit)
  unfolding reconcile
  reconcile_live-Keeps live =
      let early = updates_of inv in
      Keeps-bind _ (get_live-Keeps p keys req I early live) λ found known.
        Keeps-bind _ (handle_live-Keeps p keys req I early found known)
          λ same known'. prepared-Keeps same known'

module _ {W : Type 0} (p : Platform W) (keys : KeepsKeys p) (req : Key) (I : W → Type 0)
    (inv : KeptByCleanup p req I) where
  released-Keeps :
      (s : SingleInstance) (t : Option Raw)
      → Of req s
      → Keeps {W = W} {A = SingleInstance} I
          (elim t [
            | none ↦ pure s
            | some _ ↦ do
              cleaned ← Finalizer.handle_finalizer p s
              freed ← Finalizer.remove_finalizer p cleaned
              request (p.update instance_kind freed)
          ])
          (Found req)
  released-Keeps s none own = Keeps-pure _ s (inl own)
  released-Keeps s (some t) own =
      Ensures-within (λ x kept. kept) (λ g x met. (inl met.0, met.1)) (λ x kept. kept)
        (release-Keeps p keys req I inv s own)

  pub handle_finalizer-Keeps :
      (s : SingleInstance) → Found req s → Keeps I (handle_finalizer p s) (Found req)
  unfolding handle_finalizer
  handle_finalizer-Keeps s (inl own) = released-Keeps s s.meta.deletion_timestamp own
  handle_finalizer-Keeps s (inr same) =
      subst (λ z. Keeps I (handle_finalizer p z) (Found req)) (sym same)
        (Keeps-pure _ zero_instance (inr refl))

module _ {W : Type 0} (p : Platform W) (keys : KeepsKeys p) (req : Key) (I : W → Type 0)
    (inv : KeptInScope p req I) where
  -- `Reconcile` keeps what each request within its scope keeps.
  pub reconcile-Keeps : Keeps I (reconcile p req) (λ _. Unit)
  unfolding reconcile
  reconcile-Keeps =
      Keeps-bind _ (get_single_instance-Keeps p keys req I (updates_of inv.writes)) λ found known.
        Keeps-bind _ (handle_finalizer-Keeps p keys req I (cleanup_of inv) found known)
          λ cleaned known'. prepared-Keeps p keys req I inv.writes cleaned known'
