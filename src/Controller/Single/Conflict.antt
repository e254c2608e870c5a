-- ===== src/Controller/Single/Conflict.antt =====
-- `updateResource` against a server with optimistic concurrency control.
use greatsql_operator.Prelude.{String, ◌≡◌, ◌≢◌, ◌∙◌, err}
use greatsql_operator.Prelude.Steps.{◌>>=◌}
use greatsql_operator.Api.Meta.{Key}
use greatsql_operator.Kube.Objects.{Kind, Obj, meta_of, with_meta, meta_of-with_meta, key_of}
use greatsql_operator.Kube.Platform.{conflict, done, failed, api, Platform, request}
use greatsql_operator.Controller.Single.Update.{with_fields_of, update_resource}

-- What the API server documents of an update that names a version: if that is not the version which it
-- holds, it answers with a conflict and changes nothing. `version_at` is the version that it holds.
pub record RejectsStale {W : Type 0} (p : Platform W) (version_at : (k : Kind) → Key → W → String)
    : Type 0 where
  pub rejects :
      (k : Kind) (o : Obj k) (w : W)
      → (meta_of k o).resource_version ≢ ""
      → version_at k (key_of (meta_of k o)) w ≢ (meta_of k o).resource_version
      → p.update k o w ≡ (failed conflict, w)

-- The object of the first update: the new one, at the version that was found.
abbrev pub at_version : (k : Kind) → Obj k → String → Obj k
at_version k o version = with_meta k (record (meta_of k o) { resource_version = version }) o

-- The object of the second update: the one that was found, with four fields of the new one.
abbrev pub restored : (k : Kind) → Obj k → Obj k → Obj k
restored k o existing = with_meta k (with_fields_of (meta_of k o) (meta_of k existing)) existing

module _ {W : Type 0} (p : Platform W) (k : Kind) (key : Key) (o existing : Obj k)
    (w w1 w2 : W) where
  -- The two updates of an object that was found: the second decides the result.
  pub update_resource-found :
      (stored : Obj k)
      → p.get k key w ≡ (done existing, w1)
      → p.update k (at_version k o (meta_of k existing).resource_version) w1 ≡ (done stored, w2)
      → update_resource p k key o w ≡ request (p.update k (restored k o existing)) w2
  unfolding update_resource ◌>>=◌
  update_resource-found stored found sent = rw (found, sent)

  -- If the first update gave the object a new version, the second, which still names the old one, is
  -- refused: `updateResource` fails with a conflict after its change was stored.
  pub update_resource-conflict :
      (version_at : (j : Kind) → Key → W → String) (stored : Obj k)
      → RejectsStale p version_at
      → p.get k key w ≡ (done existing, w1)
      → p.update k (at_version k o (meta_of k existing).resource_version) w1 ≡ (done stored, w2)
      → (meta_of k existing).resource_version ≢ ""
      → version_at k (key_of (meta_of k existing)) w2 ≢ (meta_of k existing).resource_version
      → update_resource p k key o w ≡ (err (api conflict), w2)
  update_resource-conflict version_at stored law found sent named moved =
      let m = meta_of-with_meta k (with_fields_of (meta_of k o) (meta_of k existing)) existing in
      let refused : p.update k (restored k o existing) w2 ≡ (failed conflict, w2) =
        law.rejects k (restored k o existing) w2 (rw m named) (rw m moved) in
      update_resource-found stored found sent ∙ rw refused
