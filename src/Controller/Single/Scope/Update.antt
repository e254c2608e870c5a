-- ===== src/Controller/Single/Scope/Update.antt =====
-- The requests of `watchResource`.
use Prim.Native.String.{◌++◌}
use greatsql_operator.Prelude.{String, ◌≡◌, refl, ◌∙◌, Option, none, some}
use greatsql_operator.Prelude.Steps.{fail}
use greatsql_operator.Consts
use greatsql_operator.Api.Meta.{Key}
use greatsql_operator.Api.Instance.{SingleInstance}
use greatsql_operator.Kube.Objects.{
  Kind, Obj, meta_of, with_meta, meta_of-with_meta, key_of, config_map, deployment, service,
  instance_kind,
}
use greatsql_operator.Kube.Builders.Plain.{insert, new_config_map, new_service}
use greatsql_operator.Kube.Platform.{
  Reply, done, failed, not_found, already_exists, conflict, other, wrapped, marshal, Platform,
  request,
}
use greatsql_operator.Kube.Keeps.{
  Keeps, OnDone, OnDone-any, KeepsKeys, Keeps-pure, Keeps-fail, Keeps-lift, Keeps-request,
  Keeps-attempt, Keeps-bind,
}
use greatsql_operator.Controller.Single.Create.{config_map_for, service_for}
use greatsql_operator.Controller.Single.Update.{
  entries, wrap, with_fields_of, update_spec_annotation, replace, create_missing, update_resource,
  update_deployment, update_service, update_config_map, watch_resource,
}
use greatsql_operator.Controller.Single.Order.{new_deployment-key}
use greatsql_operator.Controller.Single.Scope.{updates_of, Own, KeptByWrites, Of}
use greatsql_operator.Controller.Single.Scope.Cleanup.{update_instance-Keeps}

module _ {W : Type 0} (p : Platform W) (keys : KeepsKeys p) (req : Key) (I : W → Type 0)
    (inv : KeptByWrites p req I) where
  annotate-Keeps :
      (s : SingleInstance)
      → Of req s
      → (given : Option String)
      → Keeps {W = W} {A = SingleInstance} I
          (elim given [
            | none ↦ fail marshal
            | some text ↦ request (
                p.update instance_kind (record s {
                  meta = record s.meta {
                    annotations = some (insert "spec" text (entries s.meta.annotations));
                  };
                }))
          ])
          (Of req)
  annotate-Keeps s own none = Keeps-fail _ marshal
  annotate-Keeps s own (some text) =
      update_instance-Keeps p keys req I (updates_of inv)
        (record s {
          meta = record s.meta {
            annotations = some (insert "spec" text (entries s.meta.annotations));
          };
        })
        own

  pub update_spec_annotation-Keeps :
      (s : SingleInstance) → Of req s → Keeps I (update_spec_annotation p s) (Of req)
  unfolding update_spec_annotation
  update_spec_annotation-Keeps s own = annotate-Keeps s own (p.marshal_spec s.spec)

  wrap-Keeps : {A : Type 0} (text : String) (r : Reply A) → Keeps I (wrap text r) (λ _. Unit)
  wrap-Keeps text (done a) = Keeps-pure _ a tt
  wrap-Keeps text (failed e) = Keeps-fail _ _

  update-Keeps :
      (k : Kind) (o : Obj k)
      → Own req k (key_of (meta_of k o))
      → Keeps I (request (p.update k o)) (λ _. Unit)
  update-Keeps k o own =
      Keeps-request _ (p.update k o) (inv.under_update k o own) (λ w. OnDone-any (p.update k o w).0)

  replace-Keeps :
      (k : Kind) (obj existing : Obj k)
      → Own req k (key_of (meta_of k obj))
      → Own req k (key_of (meta_of k existing))
      → Keeps I (replace p k obj existing) (λ _. Unit)
  unfolding replace
  replace-Keeps k obj existing own own' =
      let version = (meta_of k existing).resource_version in
      let dated = with_meta k (record (meta_of k obj) { resource_version = version }) obj in
      let merged = with_meta k (with_fields_of (meta_of k obj) (meta_of k existing)) existing in
      Keeps-bind _ {M = λ _. Unit}
        (Keeps-attempt _ (p.update k dated)
          (inv.under_update k dated (
            rw (meta_of-with_meta k (record (meta_of k obj) { resource_version = version }) obj)
              own))
          (λ _. tt))
        λ reply _. Keeps-bind _ (wrap-Keeps "could not update resource" reply) λ _ _.
          update-Keeps k merged (
            rw (meta_of-with_meta k (with_fields_of (meta_of k obj) (meta_of k existing)) existing)
              own')

  create_missing-Keeps :
      (k : Kind) (obj : Obj k)
      → Own req k (key_of (meta_of k obj))
      → Keeps I (create_missing p k obj) (λ _. Unit)
  unfolding create_missing
  create_missing-Keeps k obj own =
      Keeps-bind _ {M = λ _. Unit}
        (Keeps-attempt _ (p.create k obj) (inv.under_create k obj own) (λ _. tt))
        λ reply _.
          Keeps-bind _ (wrap-Keeps "could not create resource" reply) λ _ _. update-Keeps k obj own

  looked_up-Keeps :
      (k : Kind) (key : Key) (obj : Obj k)
      → Own req k key
      → key_of (meta_of k obj) ≡ key
      → (r : Reply (Obj k)) → OnDone (λ o. key_of (meta_of k o) ≡ key) r
      → Keeps {W = W} {A = Obj k} I
          (elim r [
            | done existing ↦ replace p k obj existing
            | failed not_found ↦ create_missing p k obj
            | failed e ↦ fail (wrapped "could not get resource" e)
          ])
          (λ _. Unit)
  looked_up-Keeps k key obj own same (done existing) got =
      replace-Keeps k obj existing (rw same own) (rw got own)
  looked_up-Keeps k key obj own same (failed not_found) got =
      create_missing-Keeps k obj (rw same own)
  looked_up-Keeps k key obj own same (failed already_exists) got = Keeps-fail _ _
  looked_up-Keeps k key obj own same (failed conflict) got = Keeps-fail _ _
  looked_up-Keeps k key obj own same (failed (other m)) got = Keeps-fail _ _

  -- An object is looked up and sent under the one key.
  update_resource-Keeps :
      (k : Kind) (key : Key) (obj : Obj k)
      → Own req k key
      → key_of (meta_of k obj) ≡ key
      → Keeps I (update_resource p k key obj) (λ _. Unit)
  unfolding update_resource
  update_resource-Keeps k key obj own same =
      Keeps-bind _ (Keeps-attempt _ (p.get k key) (inv.under_get k key own) (keys.got k key))
        λ reply got. looked_up-Keeps k key obj own same reply got

  update_deployment-Keeps :
      (s : SingleInstance) → Of req s → Keeps I (update_deployment p req s) (λ _. Unit)
  unfolding update_deployment
  update_deployment-Keeps s own =
      Keeps-bind _ {M = λ _. Unit} (Keeps-lift _ _ (λ _ _. tt)) λ size _.
        Keeps-bind _ (Keeps-lift _ _ (λ d e. e)) λ d e.
          Keeps-bind _
            (update_resource-Keeps deployment req d refl
              (new_deployment-key p (req.name ++ Consts.config) s size d e ∙ own))
            λ _ _. Keeps-pure _ tt tt

  update_service-Keeps : (s : SingleInstance) → Keeps I (update_service p req s) (λ _. Unit)
  unfolding update_service service_for new_service
  update_service-Keeps s =
      Keeps-bind _ (update_resource-Keeps service req (service_for p req s) refl refl)
        λ _ _. Keeps-pure _ tt tt

  update_config_map-Keeps : Keeps I (update_config_map p req) (λ _. Unit)
  unfolding update_config_map config_map_for new_config_map
  update_config_map-Keeps =
      Keeps-bind _
        (update_resource-Keeps config_map (record req { name = req.name ++ "-config" })
          (config_map_for req) refl refl)
        λ _ _. Keeps-pure _ tt tt

  pub watch_resource-Keeps :
      (s : SingleInstance) → Of req s → Keeps I (watch_resource p req s) (λ _. Unit)
  unfolding watch_resource
  watch_resource-Keeps s own = Keeps-bind _ (update_spec_annotation-Keeps s own) λ annotated own'.
      Keeps-bind _ (update_deployment-Keeps annotated own')
        λ _ _. Keeps-bind _ (update_service-Keeps annotated) λ _ _. update_config_map-Keeps
