-- ===== src/Controller/Cluster/Rounds.antt =====
-- How many members a reconciliation of a cluster creates, and when it creates nothing.
use greatsql_operator.Prelude.{◌≡◌, refl, ◌∙◌, first, none, ok, some, List, [], ◌∷◌}
use greatsql_operator.Prelude.Int.{ℤ, pos, pos_part}
use greatsql_operator.Prelude.Steps.{◌>>=◌, ◌>>◌, lift, bind_congr, pure_between}
use greatsql_operator.Api.Meta.{Key}
use greatsql_operator.Api.Cluster.{GroupReplicationCluster, Member, get_size}
use greatsql_operator.Kube.Platform.{Error, Platform, Op}
use greatsql_operator.Controller.Cluster.{
  create_secret, create_member, create_members, create_service, create_resources,
}

get_size-some : (m : Member) (n : ℤ) → m.size ≡ some n → get_size m ≡ pos 1
unfolding get_size
get_size-some m n e = rw e

-- The rounds of the loop, for the first member of a list.
pub first_rounds :
    (l rest : List Member) (m a : Member) (n : ℤ)
    → l ≡ m ∷ rest
    → m.size ≡ some n
    → first {E = Error} l ≡ ok a
    → pos_part (get_size a) ≡ 1
first_rounds [] rest m a n e size h = absurd (let no_way : ⊥ = cc in no_way)
first_rounds (b ∷ l) rest m a n e size h =
    let same : b ≡ m = cc in
    let same' : b ≡ a = cc in rw (get_size-some a n (let e : a.size ≡ some n = cc in e)) refl

get_size-none : (m : Member) → m.size ≡ none → get_size m ≡ pos 0
unfolding get_size
get_size-none m e = rw e

-- `l[0]`, of a list that is not empty, and what follows.
first_then :
    {W A B : Type 0} (l : List A) (a : A) (rest : List A) (f : A → Op W B) (w : W)
    → l ≡ a ∷ rest
    → (lift (first l) >>= f) w ≡ f a w
unfolding ◌>>=◌
first_then l a rest f w e = rw e

module _ {W : Type 0} (p : Platform W) (req : Key) (mgr : GroupReplicationCluster) where
  -- Whatever size a first member asks for, `createResources` creates the objects of member 1 alone.
  pub create_resources-one_member :
      (n : ℤ) (m : Member) (rest : List Member)
      → mgr.spec.member ≡ m ∷ rest
      → m.size ≡ some n
      → (w : W)
      → create_resources p req mgr w
        ≡ (do create_secret p req mgr; create_member p req mgr 1; create_service p req mgr) w
  unfolding create_resources create_members
  create_resources-one_member n m rest members size w =
      bind_congr (create_secret p req mgr) _ _ w λ _ v.
        first_then mgr.spec.member m rest _ v members
        ∙ rw (get_size-some m n size)
            (pure_between (create_member p req mgr 1) (create_service p req mgr) v)

  -- Without a size it creates none.
  pub create_resources-no_member :
      (m : Member) (rest : List Member)
      → mgr.spec.member ≡ m ∷ rest
      → m.size ≡ none
      → (w : W)
      → create_resources p req mgr w ≡ (create_secret p req mgr >> create_service p req mgr) w
  unfolding create_resources create_members ◌>>=◌ create_service
  create_resources-no_member m rest members size w =
      bind_congr (create_secret p req mgr) _ _ w
        λ _ v. first_then mgr.spec.member m rest _ v members ∙ rw (get_size-none m size)
