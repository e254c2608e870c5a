-- ===== src/Controller/Single/Update.antt =====
-- `watchResource` of the SingleInstance controller and the steps that it takes.
use Prim.Native.String.{◌++◌}
use greatsql_operator.Prelude.{String, Option, none, some, [], deref}
use greatsql_operator.Consts
use greatsql_operator.Api.Meta.{Key, StringMap, ObjectMeta}
use greatsql_operator.Api.Instance.{SingleInstance}
use greatsql_operator.Kube.Objects.{
  Kind, Obj, meta_of, with_meta, config_map, deployment, service, instance_kind,
}
use greatsql_operator.Kube.Builders.Plain.{insert}
use greatsql_operator.Kube.Builders.Workloads.{new_deployment}
use greatsql_operator.Prelude.Steps.{◌>>=◌, ◌>>◌, pure, fail, lift}
use greatsql_operator.Kube.Platform.{
  not_found, Reply, done, failed, wrapped, marshal, Platform, Op, request, attempt,
}
use greatsql_operator.Controller.Single.Create.{config_map_for, service_for}

abbrev pub entries : Option StringMap → StringMap
entries none = []
entries (some m) = m

-- a request whose error is put into a text
abbrev pub wrap : {A W : Type 0} → String → Reply A → Op W A
wrap text (done a) = pure a
wrap text (failed e) = fail (wrapped text e)

-- The four setters of `updateResource`.
abbrev pub with_fields_of : ObjectMeta → ObjectMeta → ObjectMeta
with_fields_of source m = record m {
  annotations = source.annotations;
  labels = source.labels;
  owner_references = source.owner_references;
  finalizers = source.finalizers;
}

module _ {W : Type 0} (p : Platform W) where
  -- `updateSpecAnnotation`
  unfoldable pub update_spec_annotation : SingleInstance → Op W SingleInstance
  update_spec_annotation s = elim (p.marshal_spec s.spec) [
    | none ↦ fail marshal
    | some text ↦ request (
        p.update instance_kind (record s {
          meta = record s.meta {
            annotations = some (insert "spec" text (entries s.meta.annotations));
          };
        }))
  ]

  -- The branch of `updateResource` in which the object was found.
  unfoldable pub replace : (k : Kind) → Obj k → Obj k → Op W (Obj k)
  replace k obj existing = do
    let version = (meta_of k existing).resource_version
    reply ←
        attempt
          (p.update k (with_meta k (record (meta_of k obj) { resource_version = version }) obj))
    wrap "could not update resource" reply
    request
        (p.update k (with_meta k (with_fields_of (meta_of k obj) (meta_of k existing)) existing))

  -- The branch in which it was not: the copy that was taken before is then updated.
  unfoldable pub create_missing : (k : Kind) → Obj k → Op W (Obj k)
  create_missing k obj = do
    reply ← attempt (p.create k obj)
    wrap "could not create resource" reply
    request (p.update k obj)

  -- `updateResource`
  unfoldable pub update_resource : (k : Kind) → Key → Obj k → Op W (Obj k)
  unfolding replace create_missing
  update_resource k key obj = do
    reply ← attempt (p.get k key)
    elim reply [
      | done existing ↦ replace k obj existing
      | failed not_found ↦ create_missing k obj
      | failed e ↦ fail (wrapped "could not get resource" e)
    ]

  -- `updateDeployment`
  unfoldable pub update_deployment : Key → SingleInstance → Op W (Unit {0})
  update_deployment req s = do
    size ← lift (deref s.spec.size)
    deploy ← lift (new_deployment p (req.name ++ Consts.config) s size)
    update_resource deployment req deploy
    pure tt

  -- `updateService`
  unfoldable pub update_service : Key → SingleInstance → Op W (Unit {0})
  update_service req s = do update_resource service req (service_for p req s); pure tt

  -- `updateConfigMap`
  unfoldable pub update_config_map : Key → Op W (Unit {0})
  update_config_map req = do
    update_resource config_map (record req { name = req.name ++ "-config" }) (config_map_for req)
    pure tt

  -- `watchResource`
  unfoldable pub watch_resource : Key → SingleInstance → Op W (Unit {0})
  watch_resource req s = do
    annotated ← update_spec_annotation s
    update_deployment req annotated
    update_service req annotated
    update_config_map req
