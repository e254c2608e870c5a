-- ===== src/Kube/Platform.antt =====
-- What the operator takes from elsewhere: the API server behind controller-runtime's client, the
-- event recorder, and the functions of k8s.io, sonic and google/uuid that it calls. Nothing is assumed
-- of these but what a theorem names as a hypothesis.
use greatsql_operator.Prelude.{String, Bool, Option, List, Outcome, ok, err}
use greatsql_operator.Prelude.Steps.{Step}
use greatsql_operator.Prelude.Int.{ℤ}
use greatsql_operator.Api.Meta.{Raw, ObjectMeta, OwnerReference, GroupVersionKind, Key}
use greatsql_operator.Api.Instance.{SingleInstanceSpec}
use greatsql_operator.Kube.Objects.{Kind, Obj}

-- An error of the API machinery, by the reason that `errors.IsNotFound` and its like look at.
pub data ApiError : Type 0 where
  not_found already_exists conflict : ApiError
  other : String → ApiError

-- The answer to a request.
pub data Reply (A : Type 0) : Type 0 where
  done : A → Reply A
  failed : ApiError → Reply A

-- The error values of the controllers. `wrapped` is `fmt.Errorf` with `%v`, which keeps the text of
-- the error and loses its reason.
pub data Error : Type 0 where
  api : ApiError → Error
  bad_request : String → Error
  wrapped : String → ApiError → Error
  marshal template : Error

-- `W` is the world: the state of the API server and of all else outside the program.
pub record Platform (W : Type 0) : Type 0 where
  -- client.Client; a reply to `create`, `update` and `update_status` is the object as the server has
  -- stored it, which the client decodes into the object that it was given
  pub get : (k : Kind) → Key → W → Reply (Obj k) × W
  pub create : (k : Kind) → Obj k → W → Reply (Obj k) × W
  pub update : (k : Kind) → Obj k → W → Reply (Obj k) × W
  pub delete : Kind → Key → W → Reply (Unit {0}) × W
  pub update_status : (k : Kind) → Obj k → W → Reply (Obj k) × W
  -- record.EventRecorder: the type, the reason and the message of an event
  pub event : String → String → String → W → W
  -- uuid.New().String()
  pub new_uuid : W → String × W
  -- controllerutil, on the list of finalizers
  pub contains_finalizer : List String → String → Bool
  pub add_finalizer : List String → String → List String
  pub remove_finalizer : List String → String → List String
  -- metav1.NewControllerRef
  pub new_controller_ref : ObjectMeta → GroupVersionKind → OwnerReference
  -- resource.Quantity: `Requests.Memory().Value()` and `Requests.Storage().Value()` of resource
  -- requirements, `NewQuantity(n, BinarySI).String()`, and `MustParse` (none if it panics)
  pub memory_request : Raw → ℤ
  pub storage_request : Raw → ℤ
  pub quantity_string : ℤ → String
  pub parse_quantity : String → Option ℤ
  -- `(*corev1.EnvVarSource).String()`, of a nil pointer too
  pub env_source_string : Option Raw → String
  -- `(metav1.Time).String()`
  pub time_string : Raw → String
  -- sonic.Marshal of a spec
  pub marshal_spec : SingleInstanceSpec → Option String

-- A step of a controller.
abbrev pub Op : Type 0 → Type 0 → Type 0
Op W A = Step Error W A

abbrev pub or_error : {A : Type 0} → Reply A → Outcome Error A
or_error (done a) = ok a
or_error (failed e) = err (api e)

module _ {W : Type 0} where
  -- a request whose error is returned as it is
  abbrev pub request : {A : Type 0} → (W → Reply A × W) → Op W A
  request q w = let (r, w') = q w in (or_error r, w')

  -- a request whose error the program looks at
  abbrev pub attempt : {A : Type 0} → (W → Reply A × W) → Op W (Reply A)
  attempt q w = let (r, w') = q w in (ok r, w')

  -- an event of the recorder
  abbrev pub emit : Platform W → String → String → String → Op W (Unit {0})
  emit p type reason message w = (ok tt, p.event type reason message w)
