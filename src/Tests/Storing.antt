-- ===== src/Tests/Storing.antt =====
-- A server that remembers which objects it has been asked to create, and holds every instance.
use text.Mathlib.Text.{◌==◌ as str_eq}
use text.Mathlib.TextEquality.{eq_iff}
use greatsql_operator.Kube.Builders.Names.{literals}
use greatsql_operator.Prelude.{
  String, arith, Bool-cases, ◌≡◌, ◌≢◌, refl, ◌∙◌, ◌⊎◌, inl, inr, List, [], ◌∷◌,
}
use greatsql_operator.Api.Meta.{Key}
use greatsql_operator.Kube.Objects.{
  Kind, Kind-discrete, config_map, claim, secret, deployment, stateful_set, service, instance_kind,
  cluster_kind, Obj, meta_of, key_of,
}
use greatsql_operator.Kube.Platform.{Reply, done, failed, not_found, Platform}
use greatsql_operator.Kube.Ensures.{Answered}
use greatsql_operator.Kube.Presence.{Persists}
use greatsql_operator.Kube.Keeps.{OnDone, KeepsKeys}
use greatsql_operator.Tests.Server.{accepting}
use greatsql_operator.Tests.Scopes.{sample_at}

pub String-discrete : Discrete String
String-discrete s t = elim (Bool-cases (str_eq s t)) [
  | inl same ↦ yes (ground (arith, eq_iff s t))
  | inr other ↦ no (literals other)
]

pub Key-discrete : Discrete Key
Key-discrete = hlevel (String-discrete)

abbrev pub Stored : Type 0
Stored = List (Kind × Key)

-- The world without an object.
abbrev pub drop : Kind → Key → Stored → Stored
drop k key [] = []
drop k key ((j, other) ∷ w) =
    let others = drop k key w in
    elim (Kind-discrete j k) [
      | yes _ ↦ elim (Key-discrete other key) [ yes _ ↦ others | no _ ↦ (j, other) ∷ others ]
      | no _ ↦ (j, other) ∷ others
    ]

abbrev pub storing_get : (k : Kind) → Key → Stored → Reply (Obj k) × Stored
storing_get instance_kind key w = (done (sample_at key), w)
storing_get _ key w = (failed not_found, w)

abbrev pub storing : Platform Stored
storing = record {
  get = storing_get;
  create = λ k o w. (done o, (k, key_of (meta_of k o)) ∷ w);
  update = λ k o w. (done o, w);
  delete = λ k key w. (done tt, drop k key w);
  update_status = λ k o w. (done o, w);
  event = λ t r m w. w;
  new_uuid = λ w. ("46dda990-ceec", w);
  contains_finalizer = accepting.contains_finalizer;
  add_finalizer = accepting.add_finalizer;
  remove_finalizer = accepting.remove_finalizer;
  new_controller_ref = accepting.new_controller_ref;
  memory_request = accepting.memory_request;
  storage_request = accepting.storage_request;
  quantity_string = accepting.quantity_string;
  parse_quantity = accepting.parse_quantity;
  env_source_string = accepting.env_source_string;
  time_string = accepting.time_string;
  marshal_spec = accepting.marshal_spec;
}

abbrev pub Holds : Stored → Kind → Key → Type 0
Holds [] k key = k ≡ instance_kind
Holds ((j, other) ∷ w) k key = ((k ≡ j) × (key ≡ other)) ⊎ Holds w k key

pub instance_held : (key : Key) (w : Stored) → Holds w instance_kind key
instance_held key [] = refl
instance_held key ((j, other) ∷ w) = inr (instance_held key w)

storing_got :
    (k : Kind) (key : Key) (w : Stored)
    → Answered (λ _ w'. Holds w' k key) (λ _. Unit) (storing_get k key w)
storing_got instance_kind key w = instance_held key w
storing_got cluster_kind key w = tt
storing_got config_map key w = tt
storing_got claim key w = tt
storing_got secret key w = tt
storing_got deployment key w = tt
storing_got stateful_set key w = tt
storing_got service key w = tt

apart_held :
    (k j i : Kind) (key other e : Key)
    → (k ≢ j) ⊎ (key ≢ other)
    → i ≡ j
    → e ≡ other
    → (k ≡ i) × (key ≡ e)
    → ⊥
apart_held k j i key other e (inl apart) h h' same = apart (same.0 ∙ h)
apart_held k j i key other e (inr apart) h h' same = apart (same.1 ∙ h')

Holds-drop :
    (k j : Kind) (key other : Key) (w : Stored)
    → (k ≢ j) ⊎ (key ≢ other)
    → Holds w k key
    → Holds (drop j other w) k key
Holds-drop k j key other [] apart h = h
Holds-drop k j key other ((i, e) ∷ w) apart (inr h) =
    let ih = Holds-drop k j key other w apart h in
    elim (Kind-discrete i j)
      as (λ d.
        Holds
          (elim d [
            | yes _ ↦ elim (Key-discrete e other) [
              | yes _ ↦ drop j other w
              | no _ ↦ (i, e) ∷ drop j other w
            ]
            | no _ ↦ (i, e) ∷ drop j other w
          ])
          k key) [
            | yes _ ↦
                elim (Key-discrete e other)
                  as (λ d.
                    Holds (elim d [ yes _ ↦ drop j other w | no _ ↦ (i, e) ∷ drop j other w ]) k
                      key) [ yes _ ↦ ih | no _ ↦ inr ih ]
            | no _ ↦ inr ih
          ]
Holds-drop k j key other ((i, e) ∷ w) apart (inl same) =
    elim (Kind-discrete i j)
      as (λ d.
        Holds
          (elim d [
            | yes _ ↦ elim (Key-discrete e other) [
              | yes _ ↦ drop j other w
              | no _ ↦ (i, e) ∷ drop j other w
            ]
            | no _ ↦ (i, e) ∷ drop j other w
          ])
          k key) [
            | yes h ↦
                elim (Key-discrete e other)
                  as (λ d.
                    Holds (elim d [ yes _ ↦ drop j other w | no _ ↦ (i, e) ∷ drop j other w ]) k
                      key) [
                        | yes h' ↦ absurd (apart_held k j i key other e apart h h' same)
                        | no _ ↦ inl same
                      ]
            | no _ ↦ inl same
          ]

storing_get-kept :
    (k : Kind) (key : Key) (j : Kind) (other : Key) (w : Stored)
    → Holds w k key
    → Holds (storing_get j other w).1 k key
storing_get-kept k key instance_kind other w h = h
storing_get-kept k key cluster_kind other w h = h
storing_get-kept k key config_map other w h = h
storing_get-kept k key claim other w h = h
storing_get-kept k key secret other w h = h
storing_get-kept k key deployment other w h = h
storing_get-kept k key stateful_set other w h = h
storing_get-kept k key service other w h = h

pub storing-Persists : Persists storing Holds
storing-Persists = record {
  created = λ k o w. inl (refl, refl);
  got = storing_got;
  stable = λ k key. record {
    under_get = storing_get-kept k key;
    under_create = λ j o w h. inr h;
    under_update = λ j o w h. h;
    under_status = λ j o w h. h;
    under_event = λ t r m w h. h;
    under_uuid = λ w h. h;
  };
  deleted = Holds-drop;
}

storing_got_key :
    (k : Kind) (key : Key) (w : Stored)
    → OnDone (λ o. key_of (meta_of k o) ≡ key) (storing_get k key w).0
storing_got_key instance_kind key w = refl
storing_got_key cluster_kind key w = tt
storing_got_key config_map key w = tt
storing_got_key claim key w = tt
storing_got_key secret key w = tt
storing_got_key deployment key w = tt
storing_got_key stateful_set key w = tt
storing_got_key service key w = tt

pub storing-KeepsKeys : KeepsKeys storing
storing-KeepsKeys = record {
  got = storing_got_key;
  created = λ k o w. refl;
  updated = λ k o w. refl;
  status_updated = λ k o w. refl;
}
