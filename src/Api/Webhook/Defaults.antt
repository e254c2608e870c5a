-- ===== src/Api/Webhook/Defaults.antt =====
-- What the defaulting webhook does to an object, once and on every later admission.
use greatsql_operator.Prelude.{
  ℕ, zero, suc, ◌+◌, ◌^◌, ◌<◌, ◌≡◌, refl, some, List, ◌∷◌, arith, length,
}
use greatsql_operator.Prelude.Int.{pos}
use greatsql_operator.Api.Cluster.{Member, GroupReplicationCluster, get_size}
use greatsql_operator.Api.Webhook.{grown, default_members, default}

-- However large the first member is, its `GetSize()` is below 3, and so the second member grows;
-- nothing else of the members changes.
pub default_members-grows :
    (first second : Member) (rest : List Member)
    → default_members (first ∷ second ∷ rest)
      ≡ first ∷ record second { size = some (grown second.size) } ∷ rest
unfolding default_members get_size
default_members-grows first second rest = ground arith

-- `n` admissions, one after the other.
pub admit : ℕ → List Member → List Member
admit zero ms = ms
admit (suc n) ms = admit n (default_members ms)

grown-below : (k : ℕ) → suc k < 2 ^ 31 → grown (some (pos k)) ≡ pos (k + 1)
unfolding grown
grown-below k h = ground arith

admit-members :
    (n k : ℕ) (first second : Member) (rest : List Member)
    → second.size ≡ some (pos k)
    → k + n < 2 ^ 31
    → admit n (first ∷ second ∷ rest) ≡ first ∷ record second { size = some (pos (k + n)) } ∷ rest
unfolding admit
admit-members zero k first second rest e h = ground arith
admit-members (suc n) k first second rest e h =
    rw (default_members-grows first second rest, e, grown-below k (omega arith))
      (rw
        (admit-members n (k + 1) first (record second { size = some (pos (k + 1)) }) rest refl
          (omega arith))
        (ground arith))

-- The same for whole objects: `n` admissions in a row.
pub admissions : ℕ → GroupReplicationCluster → GroupReplicationCluster
admissions zero r = r
admissions (suc n) r = admissions n (default r)

admissions-members :
    (n : ℕ) (r : GroupReplicationCluster)
    → admissions n r ≡ record r { spec = record r.spec { member = admit n r.spec.member } }
unfolding admissions admit default
admissions-members zero r = refl
admissions-members (suc n) r = admissions-members n (default r)

-- Admitting an object `n` times adds `n` to the size of its second member, below the range of
-- `int32`; the rest of the object stays as it is.
pub admissions-grow :
    (n k : ℕ) (r : GroupReplicationCluster) (first second : Member) (rest : List Member)
    → r.spec.member ≡ first ∷ second ∷ rest
    → second.size ≡ some (pos k)
    → k + n < 2 ^ 31
    → admissions n r ≡ record r {
      spec = record r.spec { member = first ∷ record second { size = some (pos (k + n)) } ∷ rest };
    }
admissions-grow n k r first second rest e s h =
    rw (admissions-members n r, e, admit-members n k first second rest s h)

-- With fewer than two members an admission changes nothing.
pub default-few : (r : GroupReplicationCluster) → length r.spec.member < 2 → default r ≡ r
unfolding default default_members
default-few r h = ground arith
