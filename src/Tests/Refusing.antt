-- ===== src/Tests/Refusing.antt =====
-- The server that remembers, and refuses to create what it holds.
use greatsql_operator.Prelude.{◌≡◌, refl, ◌⊎◌, inl, inr, [], ◌∷◌}
use greatsql_operator.Api.Meta.{Key}
use greatsql_operator.Kube.Objects.{
  Kind, Kind-discrete, config_map, claim, secret, deployment, stateful_set, service, instance_kind,
  cluster_kind, Obj, meta_of, key_of,
}
use greatsql_operator.Kube.Platform.{Reply, done, failed, not_found, already_exists, Platform}
use greatsql_operator.Kube.Ensures.{Answered}
use greatsql_operator.Kube.Keeps.{OnDone, KeepsKeys}
use greatsql_operator.Kube.Presence.{Persists}
use greatsql_operator.Kube.Presence.Refusal.{Refuses}
use greatsql_operator.Tests.Storing.{
  Stored, Holds, storing, drop, instance_held, storing-Persists, Key-discrete,
}
use greatsql_operator.Tests.Scopes.{sample_at, cluster_at}

abbrev either : {A B C : Type 0} → Dec A → Dec B → Dec C → Dec ((A × B) ⊎ C)
either (yes a) (yes b) d = yes (inl (a, b))
either (yes a) (no b) (yes c) = yes (inr c)
either (yes a) (no b) (no c) = no (λ s. elim s [ inl h ↦ b h.1 | inr h ↦ c h ])
either (no a) e (yes c) = yes (inr c)
either (no a) e (no c) = no (λ s. elim s [ inl h ↦ a h.0 | inr h ↦ c h ])

abbrev held : (w : Stored) (k : Kind) (key : Key) → Dec (Holds w k key)
held [] k key = Kind-discrete k instance_kind
held ((j, other) ∷ w) k key = either (Kind-discrete k j) (Key-discrete key other) (held w k key)

-- The reply to a look-up of a cluster, and to a creation.
abbrev show : (key : Key) (w : Stored) → Dec (Holds w cluster_kind key) → Reply (Obj cluster_kind)
show key w (yes _) = done (cluster_at key)
show key w (no _) = failed not_found

abbrev answer :
    (k : Kind) (o : Obj k) (w : Stored)
    → Dec (Holds w k (key_of (meta_of k o)))
    → Reply (Obj k) × Stored
answer k o w (yes _) = (failed already_exists, w)
answer k o w (no _) = (done o, (k, key_of (meta_of k o)) ∷ w)

abbrev refusing_get : (k : Kind) → Key → Stored → Reply (Obj k) × Stored
refusing_get instance_kind key w = (done (sample_at key), w)
refusing_get cluster_kind key w = (show key w (held w cluster_kind key), w)
refusing_get _ key w = (failed not_found, w)

abbrev pub refusing : Platform Stored
refusing = record storing {
  get = refusing_get;
  create = λ k o w. answer k o w (held w k (key_of (meta_of k o)));
}

refusing_get-world : (k : Kind) (key : Key) (w : Stored) → (refusing_get k key w).1 ≡ w
refusing_get-world instance_kind key w = refl
refusing_get-world cluster_kind key w = refl
refusing_get-world config_map key w = refl
refusing_get-world claim key w = refl
refusing_get-world secret key w = refl
refusing_get-world deployment key w = refl
refusing_get-world stateful_set key w = refl
refusing_get-world service key w = refl

show_got :
    (key : Key) (w : Stored) (d : Dec (Holds w cluster_kind key))
    → Answered (λ _ w'. Holds w' cluster_kind key) (λ _. Unit) (show key w d, w)
show_got key w (yes h) = h
show_got key w (no _) = tt

show_key :
    (key : Key) (w : Stored) (d : Dec (Holds w cluster_kind key))
    → OnDone (λ o. key_of (meta_of cluster_kind o) ≡ key) (show key w d)
show_key key w (yes h) = refl
show_key key w (no _) = tt

refusing_got :
    (k : Kind) (key : Key) (w : Stored)
    → Answered (λ _ w'. Holds w' k key) (λ _. Unit) (refusing_get k key w)
refusing_got instance_kind key w = instance_held key w
refusing_got cluster_kind key w = show_got key w (held w cluster_kind key)
refusing_got config_map key w = tt
refusing_got claim key w = tt
refusing_got secret key w = tt
refusing_got deployment key w = tt
refusing_got stateful_set key w = tt
refusing_got service key w = tt

refusing_got_key :
    (k : Kind) (key : Key) (w : Stored)
    → OnDone (λ o. key_of (meta_of k o) ≡ key) (refusing_get k key w).0
refusing_got_key instance_kind key w = refl
refusing_got_key cluster_kind key w = show_key key w (held w cluster_kind key)
refusing_got_key config_map key w = tt
refusing_got_key claim key w = tt
refusing_got_key secret key w = tt
refusing_got_key deployment key w = tt
refusing_got_key stateful_set key w = tt
refusing_got_key service key w = tt

module _ (k : Kind) (o : Obj k) (w : Stored) where
  answer_taken :
      (d : Dec (Holds w k (key_of (meta_of k o))))
      → Holds w k (key_of (meta_of k o))
      → (answer k o w d).0 ≡ failed already_exists
  answer_taken (yes _) h = refl
  answer_taken (no other) h = absurd (other h)

  answer_created :
      (d : Dec (Holds w k (key_of (meta_of k o))))
      → Answered (λ _ w'. Holds w' k (key_of (meta_of k o))) (λ _. Unit) (answer k o w d)
  answer_created (yes _) = tt
  answer_created (no _) = inl (refl, refl)

  answer_kept :
      (d : Dec (Holds w k (key_of (meta_of k o)))) (j : Kind) (key : Key)
      → Holds w j key
      → Holds (answer k o w d).1 j key
  answer_kept (yes _) j key h = h
  answer_kept (no _) j key h = inr h

  answer_key :
      (d : Dec (Holds w k (key_of (meta_of k o))))
      → OnDone (λ o'. key_of (meta_of k o') ≡ key_of (meta_of k o)) (answer k o w d).0
  answer_key (yes _) = tt
  answer_key (no _) = refl

  answer_refused :
      (d : Dec (Holds w k (key_of (meta_of k o)))) (j : Kind) (key : Key)
      → (answer k o w d).0 ≡ failed already_exists
      → ¬ Holds w j key
      → ¬ Holds (answer k o w d).1 j key
  answer_refused (yes _) j key e h = h
  answer_refused (no _) j key e h = absurd (let no_way : ⊥ = cc in no_way)

Holds-dropped :
    (k j : Kind) (key other : Key) (w : Stored) → Holds (drop j other w) k key → Holds w k key
Holds-dropped k j key other [] = λ h. h
Holds-dropped k j key other ((i, e) ∷ w) =
    let ih = Holds-dropped k j key other w in
    elim (Kind-discrete i j)
      as (λ d.
        Holds
          (elim d [
            | yes _ ↦ elim (Key-discrete e other) [
              | yes _ ↦ drop j other w
              | no _ ↦ (i, e) ∷ drop j other w
            ]
            | no _ ↦ (i, e) ∷ drop j other w
          ])
          k key
        → Holds ((i, e) ∷ w) k key) [
          | yes _ ↦
              elim (Key-discrete e other)
                as (λ d.
                  Holds (elim d [ yes _ ↦ drop j other w | no _ ↦ (i, e) ∷ drop j other w ]) k key
                  → Holds ((i, e) ∷ w) k key) [
                    | yes _ ↦ λ h. inr (ih h)
                    | no _ ↦ λ h. elim h [ inl s ↦ inl s | inr g ↦ inr (ih g) ]
                  ]
          | no _ ↦ λ h. elim h [ inl s ↦ inl s | inr g ↦ inr (ih g) ]
        ]

pub refusing-KeepsKeys : KeepsKeys refusing
refusing-KeepsKeys = record {
  got = refusing_got_key;
  created = λ k o w. answer_key k o w (held w k (key_of (meta_of k o)));
  updated = λ k o w. refl;
  status_updated = λ k o w. refl;
}

pub refusing-Persists : Persists refusing Holds
refusing-Persists = record {
  created = λ k o w. answer_created k o w (held w k (key_of (meta_of k o)));
  got = refusing_got;
  stable = λ k key. record {
    under_get = λ j other w h. rw (refusing_get-world j other w) h;
    under_create = λ j o w h. answer_kept j o w (held w j (key_of (meta_of j o))) k key h;
    under_update = λ j o w h. h;
    under_status = λ j o w h. h;
    under_event = λ t r m w h. h;
    under_uuid = λ w h. h;
  };
  deleted = storing-Persists.deleted;
}

pub refusing-Refuses : Refuses refusing Holds
refusing-Refuses = record {
  taken = λ k o w h. answer_taken k o w (held w k (key_of (meta_of k o))) h;
  under_refusal =
      λ k j key o w e h. answer_refused j o w (held w j (key_of (meta_of j o))) k key e h;
  under_get = λ k j key other w h. rw (refusing_get-world j other w) h;
  under_update = λ k j key o w h. h;
  under_delete = λ k j key other w h g. h (Holds-dropped k j key other w g);
  under_event = λ k key t r m w h. h;
}
