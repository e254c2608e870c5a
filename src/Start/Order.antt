-- ===== src/Start/Order.antt =====
-- The order in which `run` sets the manager up and starts it.
use text.Mathlib.Text.{◌==◌ as str_eq}
use mathlib.Core.List.{◌++◌}
use greatsql_operator.Prelude.{
  String, ◌≡◌, refl, Bool, true, false, not, Option, none, some, List, [], ◌∷◌, inl, inr, Outcome,
  ok, err, panic, if◌then◌else◌,
}
use greatsql_operator.Prelude.Steps.{Step, ◌>>=◌, ◌>>◌, pure}
use greatsql_operator.Prelude.Plans.{
  Answered, answered, failure, Ran, Follows, Follows-pure, Follows-bind,
}
use greatsql_operator.Kube.Objects.{Kind, cluster_kind}
use greatsql_operator.Api.Webhook.{setup_webhook}
use greatsql_operator.Controller.Setup
use greatsql_operator.Controller.Setup.{Watch}
use greatsql_operator.Start.{Host, Exit, exit, manager_options, or_exit, serve, run}

-- What `run` asks of the libraries.
pub data HostCall : Type 0 where
  flags_call config_call manager_call start_call : HostCall
  controller_call : Watch → HostCall
  webhook_call : Kind → HostCall
  healthz_call readyz_call : String → HostCall

abbrev pub Answers : Type 0
Answers = List (Answered HostCall Exit)

abbrev pub exit_with : String → Option String → Option Exit
exit_with message none = none
exit_with message (some _) = some (exit message)

-- A call whose error ends the program with `message`, noted at the end of the log.
abbrev pub noted :
    {W : Type 0}
    → HostCall
    → String
    → (W → Option String × W)
    → W × Answers
    → Option String × (W × Answers)
noted c message call (w, log) =
    let (reply, w') = call w in (reply, (w', log ++ (answered c (exit_with message reply) ∷ [])))

-- A call that ends the program itself.
abbrev pub noted_step : {W A : Type 0} → HostCall → Step Exit W A → Step Exit (W × Answers) A
noted_step c call (w, log) =
    let (result, w') = call w in (result, (w', log ++ (answered c (failure result) ∷ [])))

-- The host with a log of the calls and of the exits that they cause.
abbrev pub recorded : {W : Type 0} → Host W → Host (W × Answers)
recorded h = record {
  parse_flags = noted_step flags_call h.parse_flags;
  get_config_or_die = noted_step config_call h.get_config_or_die;
  new_manager = λ config o. noted manager_call "unable to start manager" (h.new_manager config o);
  complete = λ b. noted (controller_call b) "unable to create controller" (h.complete b);
  getenv = λ name x. h.getenv name x.0;
  complete_webhook = λ k. noted (webhook_call k) "unable to create webhook" (h.complete_webhook k);
  add_healthz_check =
      λ name. noted (healthz_call name) "unable to set up health check" (h.add_healthz_check name);
  add_readyz_check =
      λ name. noted (readyz_call name) "unable to set up ready check" (h.add_readyz_check name);
  start = noted start_call "problem running manager" h.start;
}

abbrev pub serve_plan : Bool → List HostCall
serve_plan enabled =
    (if enabled then webhook_call cluster_kind ∷ [] else [])
    ++ (healthz_call "healthz" ∷ readyz_call "readyz" ∷ start_call ∷ [])

-- The calls of `run`, where ENABLE_WEBHOOKS has the value that is given.
abbrev pub start_plan : String → List HostCall
start_plan value =
    flags_call
    ∷ config_call
    ∷ manager_call
    ∷ controller_call Setup.single_watch
    ∷ controller_call Setup.cluster_watch
    ∷ serve_plan (not (str_eq value "false"))

module _ {W : Type 0} where
  reply-Ran :
      (c : HostCall) (message : String) (log : Answers) (x : Option String × W)
      → Ran (c ∷ []) log (or_exit message (noted c message (λ _. x)) (x.1, log))
  reply-Ran c message log (none, w) = record {
    sent = answered c none ∷ [];
    rest = [];
    logged_as = refl;
    planned = refl;
    complete = refl;
    halted = inl (refl, tt);
  }
  reply-Ran c message log (some e, w) = record {
    sent = answered c (some (exit message)) ∷ [];
    rest = [];
    logged_as = refl;
    planned = refl;
    complete = tt;
    halted = inr (refl, exit message, refl, refl);
  }

  noted-Follows :
      (c : HostCall) (message : String) (call : W → Option String × W)
      → Follows (c ∷ []) (or_exit message (noted c message call))
  noted-Follows c message call = record { at = λ w log. reply-Ran c message log (call w) }

  result-Ran :
      {A : Type 0} (c : HostCall) (log : Answers) (x : Outcome Exit A × W)
      → Ran (c ∷ []) log (x.0, (x.1, log ++ (answered c (failure x.0) ∷ [])))
  result-Ran c log (ok a, w) = record {
    sent = answered c none ∷ [];
    rest = [];
    logged_as = refl;
    planned = refl;
    complete = refl;
    halted = inl (refl, tt);
  }
  result-Ran c log (err e, w) = record {
    sent = answered c (some e) ∷ [];
    rest = [];
    logged_as = refl;
    planned = refl;
    complete = tt;
    halted = inr (refl, e, refl, refl);
  }
  result-Ran c log (panic f, w) = record {
    sent = answered c none ∷ [];
    rest = [];
    logged_as = refl;
    planned = refl;
    complete = tt;
    halted = inl (refl, tt);
  }

  noted_step-Follows :
      {A : Type 0} (c : HostCall) (call : Step Exit W A) → Follows (c ∷ []) (noted_step c call)
  noted_step-Follows c call = record { at = λ w log. result-Ran c log (call w) }

module _ {W : Type 0} (h : Host W) (value : String)
    (settled : (w : W) → h.getenv "ENABLE_WEBHOOKS" w ≡ value) where
  hook-Follows :
      (enabled : Bool)
      → Follows (if enabled then webhook_call cluster_kind ∷ [] else []) (
          if enabled
          then or_exit "unable to create webhook" (setup_webhook (recorded h).complete_webhook)
          else pure tt)
  hook-Follows true =
      noted-Follows (webhook_call cluster_kind) "unable to create webhook"
        (h.complete_webhook cluster_kind)
  hook-Follows false = Follows-pure tt

  checks-Follows :
      (enabled : Bool)
      → Follows (serve_plan enabled) (do
        if enabled
            then or_exit "unable to create webhook" (setup_webhook (recorded h).complete_webhook)
            else pure tt
        or_exit "unable to set up health check" ((recorded h).add_healthz_check "healthz")
        or_exit "unable to set up ready check" ((recorded h).add_readyz_check "readyz")
        or_exit "problem running manager" (recorded h).start)
  checks-Follows enabled =
      Follows-bind _ _ _
        (λ _.
          Follows-bind _ _ _
            (λ _.
              Follows-bind _ _ _ (λ _. noted-Follows _ _ h.start) _
                (noted-Follows _ _ (h.add_readyz_check "readyz")))
            _ (noted-Follows _ _ (h.add_healthz_check "healthz")))
        _ (hook-Follows enabled)

  serve-Follows : Follows (serve_plan (not (str_eq value "false"))) (serve (recorded h))
  unfolding serve ◌>>=◌
  serve-Follows = record {
    at = λ w log. rw (settled w) ((checks-Follows (not (str_eq value "false"))).at w log);
  }

  -- Where the environment keeps the value of ENABLE_WEBHOOKS, `run` parses the flags, reads the
  -- configuration, makes the manager, sets up the two controllers, the webhook unless the value is
  -- "false", the health check and the ready check, and starts the manager, in this order, and nothing
  -- else. It returns only if it has done all of this and none of it failed; where one of them fails, it
  -- is the last, and `run` exits as that failure makes it: with the code of the library for the flags
  -- and the configuration, and with its own message for the others.
  pub run-Follows : Follows (start_plan value) (run (recorded h))
  unfolding run
  run-Follows =
      Follows-bind _ _ _
        (λ flags.
          Follows-bind _ _ _
            (λ config.
              Follows-bind _ _ _
                (λ _.
                  Follows-bind _ _ _
                    (λ _.
                      Follows-bind _ _ _ (λ _. serve-Follows) _
                        (noted-Follows _ _ (h.complete Setup.cluster_watch)))
                    _ (noted-Follows _ _ (h.complete Setup.single_watch)))
                _ (noted-Follows _ _ (h.new_manager config (manager_options flags))))
            _ (noted_step-Follows config_call h.get_config_or_die))
        _ (noted_step-Follows flags_call h.parse_flags)
