-- ===== src/Tests/Returns.antt =====
-- Runs that come to their end: the cleanup, the creation, and the writing of the settings.
use text.Mathlib.Text.{◌==◌ as str_eq}
use greatsql_operator.Prelude.{
  ℕ, suc, String, ◌≡◌, refl, false, Bool-cases, inl, inr, Option, none, some, List, [], ◌∷◌, ok,
  arith,
}
use greatsql_operator.Prelude.Int.{pos}
use greatsql_operator.Api.Instance.{SingleInstance}
use greatsql_operator.Kube.Platform.{Reply, done}
use greatsql_operator.Mysql.Config.File.{Os, file}
use greatsql_operator.Mysql.Config.File.Closing.{with_close, file-ignores_close}
use greatsql_operator.Utils.Finalizer.{handle_finalizer, has_finalizer}
use greatsql_operator.Utils.Finalizer.Freed.{LetsGo, handle_finalizer-frees}
use greatsql_operator.Controller.Single.Create.{single_config, create_resources}
use greatsql_operator.Controller.Single.Promise.Returns.{
  Admits, IsComplete, create_resources-returns,
}
use greatsql_operator.Tests.Server.{
  holds, without, accepting, request_key, sample, dying, container, template,
}

holds-without : (fs : List String) (f : String) → holds (without fs f) f ≡ false
holds-without [] f = refl
holds-without (g ∷ fs) f = elim (Bool-cases (str_eq g f)) [
  | inl same ↦ rw same (holds-without fs f)
  | inr other ↦ rw (other, holds-without fs f, other) refl
]

accepting-LetsGo : LetsGo accepting
accepting-LetsGo = record {
  deletes = λ k key w. inl refl;
  stores = λ g w. (g, refl, refl);
  removes = holds-without;
}

handle_finalizer-frees_example :
    (g : SingleInstance) × ((handle_finalizer accepting dying 0).0 ≡ ok g)
    × (has_finalizer accepting g ≡ false)
handle_finalizer-frees_example = handle_finalizer-frees accepting accepting-LetsGo dying 0 refl refl

pub done_inj : {A : Type 0} {a b : A} → ◌≡◌ {A = Reply A} (done a) (done b) → a ≡ b
done_inj h = cc

accepting-Admits : Admits accepting
accepting-Admits = record {
  creates = λ k o w. (o, refl);
  keeps_ports = λ o o' w e h. rw (← done_inj e) h;
  states = λ s w. (s, refl);
  reads = λ n. (pos 1073741824, refl);
}

abbrev served : SingleInstance
served = record sample {
  spec = record sample.spec {
    ports =
        record { name = "mysql"; port = pos 3306; node_port = pos 0; target_port = "3306" } ∷ [];
  };
}

served-IsComplete : IsComplete served
served-IsComplete = record {
  accepted = record {
    size = pos 2;
    size_set = refl;
    size_not_zero = λ e. ground arith;
    template = template;
    template_set = refl;
    class_name = "standard";
    class_set = refl;
  };
  container = container;
  rest = [];
  containers = refl;
  ports = λ e. cc;
}

create_resources-returns_example :
    (s : SingleInstance) × ((create_resources accepting request_key served 0).0 ≡ ok s)
create_resources-returns_example =
    create_resources-returns accepting accepting-Admits request_key served 0 served-IsComplete

-- An operating system that gives out handles, and one of its kind that cannot close them.
abbrev plain : Os ℕ
plain = record {
  create = λ path w. (ok w, suc w);
  write_string = λ f text w. (none, w);
  close = λ f w. (none, w);
}

abbrev failing_close : ℕ → ℕ → Option String × ℕ
failing_close f w = (some "disk full", w)

file-ignores_close_example :
    (file (with_close plain failing_close) single_config 0).0 ≡ (file plain single_config 0).0
file-ignores_close_example = file-ignores_close plain failing_close single_config 0
