-- ===== src/Kube/Trace.antt =====
-- The requests that a controller sends, in their order, over any API server: a platform that keeps a
-- log beside the world.
use greatsql_operator.Prelude.{List, [], ◌∷◌, ◌++◌}
use greatsql_operator.Api.Meta.{Key}
use greatsql_operator.Kube.Objects.{Kind, meta_of, key_of}
use greatsql_operator.Kube.Platform.{Reply, Platform}

pub data Call : Type 0 where
  get_call create_call update_call delete_call status_call : Kind → Key → Call

abbrev pub key_of_call : Call → Key
key_of_call (get_call _ key) = key
key_of_call (create_call _ key) = key
key_of_call (update_call _ key) = key
key_of_call (delete_call _ key) = key
key_of_call (status_call _ key) = key

abbrev pub Log : Type 0
Log = List Call

-- A request, with its call at the end of the log.
abbrev pub logged : {W A : Type 0} → Call → (W → Reply A × W) → W × Log → Reply A × (W × Log)
logged c q (w, log) = let (r, w') = q w in (r, (w', log ++ (c ∷ [])))

-- The platform with a log of the requests.
abbrev pub traced : {W : Type 0} → Platform W → Platform (W × Log)
traced p = record {
  get = λ k key. logged (get_call k key) (p.get k key);
  create = λ k o. logged (create_call k (key_of (meta_of k o))) (p.create k o);
  update = λ k o. logged (update_call k (key_of (meta_of k o))) (p.update k o);
  delete = λ k key. logged (delete_call k key) (p.delete k key);
  update_status = λ k o. logged (status_call k (key_of (meta_of k o))) (p.update_status k o);
  event = λ t r m x. (p.event t r m x.0, x.1);
  new_uuid = λ x. let (u, w) = p.new_uuid x.0 in (u, (w, x.1));
  contains_finalizer = p.contains_finalizer;
  add_finalizer = p.add_finalizer;
  remove_finalizer = p.remove_finalizer;
  new_controller_ref = p.new_controller_ref;
  memory_request = p.memory_request;
  storage_request = p.storage_request;
  quantity_string = p.quantity_string;
  parse_quantity = p.parse_quantity;
  env_source_string = p.env_source_string;
  time_string = p.time_string;
  marshal_spec = p.marshal_spec;
}
