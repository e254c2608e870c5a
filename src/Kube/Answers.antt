-- ===== src/Kube/Answers.antt =====
-- The requests that a controller sends with their answers, over any API server: a platform that keeps a
-- log of both beside the world.
use greatsql_operator.Prelude.{◌≡◌, refl, Option, none, some, List, [], ◌∷◌, ◌++◌, inl, inr}
use greatsql_operator.Prelude.Steps.{◌>>=◌, fail}
use greatsql_operator.Prelude.Plans.{Answered, answered, Ran, Ran-then, Follows}
use greatsql_operator.Prelude.Choices.{Chosen, Obeys}
use greatsql_operator.Kube.Objects.{Kind, Obj, meta_of, key_of}
use greatsql_operator.Kube.Platform.{
  ApiError, not_found, Reply, done, failed, Error, api, Platform, or_error, request, attempt, Op,
}
use greatsql_operator.Kube.Trace.{
  Call, get_call, create_call, update_call, delete_call, status_call,
}

-- The error that stops the program: that of the answer, but for a look-up or a deletion of an object
-- that is not there.
abbrev pub refused : Call → ApiError → Option Error
refused (get_call _ _) not_found = none
refused (delete_call _ _) not_found = none
refused _ e = some (api e)

abbrev pub refusal : {A : Type 0} → Call → Reply A → Option Error
refusal c (done _) = none
refusal c (failed e) = refused c e

abbrev pub Answers : Type 0
Answers = List (Answered Call Error)

-- A request, with its call and the answer at the end of the log.
abbrev pub noted : {W A : Type 0} → Call → (W → Reply A × W) → W × Answers → Reply A × (W × Answers)
noted c q (w, log) = let (r, w') = q w in (r, (w', log ++ (answered c (refusal c r) ∷ [])))

-- The platform with a log of the requests and their answers.
abbrev pub recorded : {W : Type 0} → Platform W → Platform (W × Answers)
recorded p = record {
  get = λ k key. noted (get_call k key) (p.get k key);
  create = λ k o. noted (create_call k (key_of (meta_of k o))) (p.create k o);
  update = λ k o. noted (update_call k (key_of (meta_of k o))) (p.update k o);
  delete = λ k key. noted (delete_call k key) (p.delete k key);
  update_status = λ k o. noted (status_call k (key_of (meta_of k o))) (p.update_status k o);
  event = λ t r m x. (p.event t r m x.0, x.1);
  new_uuid = λ x. let (u, w) = p.new_uuid x.0 in (u, (w, x.1));
  contains_finalizer = p.contains_finalizer;
  add_finalizer = p.add_finalizer;
  remove_finalizer = p.remove_finalizer;
  new_controller_ref = p.new_controller_ref;
  memory_request = p.memory_request;
  storage_request = p.storage_request;
  quantity_string = p.quantity_string;
  parse_quantity = p.parse_quantity;
  env_source_string = p.env_source_string;
  time_string = p.time_string;
  marshal_spec = p.marshal_spec;
}

-- A request whose every error is returned.
record Strict (c : Call) : Type 0 where
  each : (e : ApiError) → refused c e ≡ some (api e)

module _ {W A : Type 0} (c : Call) (strict : Strict c) where
  Ran-noted :
      (log : Answers) (x : Reply A × W)
      → Ran (c ∷ []) log (or_error x.0, (x.1, log ++ (answered c (refusal c x.0) ∷ [])))
  Ran-noted log (done a, w) = record {
    sent = answered c none ∷ [];
    rest = [];
    logged_as = refl;
    planned = refl;
    complete = refl;
    halted = inl (refl, tt);
  }
  Ran-noted log (failed e, w) = record {
    sent = answered c (refused c e) ∷ [];
    rest = [];
    logged_as = refl;
    planned = refl;
    complete = tt;
    halted = inr (refl, api e, strict.each e, refl);
  }

  Follows-request : (q : W → Reply A × W) → Follows (c ∷ []) (request (noted c q))
  Follows-request q = record { at = λ w log. Ran-noted log (q w) }

-- The requests of the recorded platform whose every error stops the program.
module _ {W : Type 0} (p : Platform W) (k : Kind) where
  pub Follows-create :
      (o : Obj k)
      → Follows (create_call k (key_of (meta_of k o)) ∷ []) (request ((recorded p).create k o))
  Follows-create o = Follows-request _ (record { each = λ e. refl }) (p.create k o)

  pub Follows-update :
      (o : Obj k)
      → Follows (update_call k (key_of (meta_of k o)) ∷ []) (request ((recorded p).update k o))
  Follows-update o = Follows-request _ (record { each = λ e. refl }) (p.update k o)

  pub Follows-update_status :
      (o : Obj k)
      → Follows
          (status_call k (key_of (meta_of k o)) ∷ [])
          (request ((recorded p).update_status k o))
  Follows-update_status o = Follows-request _ (record { each = λ e. refl }) (p.update_status k o)

-- A request whose error the program looks at: behind an answer that does not stop it, the program
-- follows one of the plans in `Next`, and behind one that does, it fails with the error.
module _ {W A B : Type 0} (c : Call) (Next Plans : List Call → Type 0)
    (glue : (plan : List Call) → Next plan → Plans (c ∷ plan)) (usual : List Call)
    (known : Next usual) (f : Reply A → Op (W × Answers) B)
    (met : (a : A) → Obeys Next (f (done a)))
    (passed : (e : ApiError) → refused c e ≡ none → Obeys Next (f (failed e)))
    (stops : (e : ApiError) (x : Error) → refused c e ≡ some x → f (failed e) ≡ fail x) where
  accepted-Chosen :
      (log : Answers) (r : Reply A) (w : W)
      → refusal c r ≡ none
      → Obeys Next (f r)
      → Chosen Plans log (f r (w, log ++ (answered c (refusal c r) ∷ [])))
  accepted-Chosen log r w clean h =
      let d = h.at w (log ++ (answered c (refusal c r) ∷ [])) in
      record {
        plan = c ∷ d.plan;
        allowed = glue d.plan d.allowed;
        ran =
            Ran-then {E = Error} (c ∷ []) d.plan log (log ++ (answered c (refusal c r) ∷ [])) r w _
              (record {
                sent = answered c (refusal c r) ∷ [];
                rest = [];
                logged_as = refl;
                planned = refl;
                complete = refl;
                halted = inl (clean, tt);
              })
              d.ran;
      }

  stopped-Chosen :
      (log : Answers) (e : ApiError) (x : Error) (w : W)
      → refused c e ≡ some x
      → Chosen Plans log (f (failed e) (w, log ++ (answered c (refused c e) ∷ [])))
  stopped-Chosen log e x w bad = rw (stops e x bad) (record {
    plan = c ∷ usual;
    allowed = glue usual known;
    ran = record {
      sent = answered c (refused c e) ∷ [];
      rest = usual;
      logged_as = refl;
      planned = refl;
      complete = tt;
      halted = inr (refl, x, bad, refl);
    };
  })

  looked_at-Chosen :
      (log : Answers) (e : ApiError) (w : W) (o : Option Error)
      → refused c e ≡ o
      → Chosen Plans log (f (failed e) (w, log ++ (answered c (refused c e) ∷ [])))
  looked_at-Chosen log e w none h = accepted-Chosen log (failed e) w h (passed e h)
  looked_at-Chosen log e w (some x) h = stopped-Chosen log e x w h

  answer-Chosen :
      (log : Answers) (y : Reply A × W)
      → Chosen Plans log (f y.0 (y.1, log ++ (answered c (refusal c y.0) ∷ [])))
  answer-Chosen log (done a, w) = accepted-Chosen log (done a) w refl (met a)
  answer-Chosen log (failed e, w) = looked_at-Chosen log e w (refused c e) refl

  pub Obeys-attempt : (q : W → Reply A × W) → Obeys Plans (attempt (noted c q) >>= f)
  unfolding ◌>>=◌
  Obeys-attempt q = record { at = λ w log. answer-Chosen log (q w) }
