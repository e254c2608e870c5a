-- ===== src/Kube/Sends.antt =====
-- Which requests a step may send: a predicate on the calls of the traced platform, kept by each of them.
use greatsql_operator.Prelude.{[], ◌∷◌, ◌++◌, All, All-append}
use greatsql_operator.Kube.Platform.{Platform, Op}
use greatsql_operator.Kube.Trace.{Call, Log, traced}
use greatsql_operator.Kube.Keeps.{Keeps, KeepsKeys}

-- The calls of the log are in `P`.
abbrev pub Logged : {W : Type 0} → (Call → Type 0) → W × Log → Type 0
Logged P x = All P x.1

-- From a log of calls in `P`, the step leaves a log of calls in `P`, and what it returns is in `Q`.
abbrev pub Sends : {W A : Type 0} → (Call → Type 0) → Op (W × Log) A → (A → Type 0) → Type 0
Sends P m Q = Keeps (Logged P) m Q

-- The log changes no reply.
pub KeepsKeys-traced : {W : Type 0} (p : Platform W) → KeepsKeys p → KeepsKeys (traced p)
KeepsKeys-traced p keys = record {
  got = λ k key x. keys.got k key x.0;
  created = λ k o x. keys.created k o x.0;
  updated = λ k o x. keys.updated k o x.0;
  status_updated = λ k o x. keys.status_updated k o x.0;
}

-- A call in `P` may be put behind the log.
pub Logged-one :
    (P : Call → Type 0) (c : Call) (log : Log) → P c → All P log → All P (log ++ (c ∷ []))
Logged-one P c log h kept = All-append P log (c ∷ []) kept (h, tt)
