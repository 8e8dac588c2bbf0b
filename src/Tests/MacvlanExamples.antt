-- ===== src/Tests/MacvlanExamples.antt =====
-- A worker whose request is answered by the daemon.
use vlanman.Prelude.{
  ℕ, ℤ, pos, negsuc, String, List, [], some, inl, inr, Option, none, ◌≡◌, refl, sym, ap, subst,
  inr_injective, inl_ne_inr,
}
use vlanman.Prelude.Decimal.{decimal, take_digits, take_digits-decimal}
use vlanman.Prelude.Run.{Out, ok, err, panic}
use vlanman.Prelude.Ends.{Ends}
use vlanman.Errors.{external}
use vlanman.Cluster.{Response}
use vlanman.Host.{Host, HostAnswer, HostEvent}
use vlanman.Cmd.Manager.Macvlan.{Reply, macvlan}
use vlanman.Cmd.Worker.{url, worker_main}
use vlanman.Cmd.Worker.FromManager.{IsConnected, Delivers, worker_main-IsConnected}
use vlanman.Tests.NodeExamples.{node, variables}

-- A natural number as its digits.
abbrev encode : ℤ → String
encode (pos n) = decimal n
encode (negsuc n) = "-"

abbrev number_of : Option ℕ → HostAnswer ℤ
number_of none = inl (external "no number")
number_of (some n) = inr (pos n)

abbrev encode_or_fail : ℤ → HostAnswer String
encode_or_fail (pos n) = inr (decimal n)
encode_or_fail (negsuc _) = inl (external "negative")

abbrev manager : Host
manager = record node { unmarshal_ns_id = λ s. number_of (take_digits 0 s) }

abbrev response_of : Out HostEvent (Unit {0}) Reply → Response
response_of (ok r, _) = record { status_code = r.status; body = some (inr (encode r.id)) }
response_of (err _, _) = record { status_code = 0; body = some (inr "") }
response_of (panic, _) = record { status_code = 0; body = some (inr "") }

-- The request finds the manager's node as it started.
abbrev worker : Host
worker = record node {
  http_post_answer =
      λ _ payload _. inr (some (response_of (macvlan manager (pos 7) (some (inr payload)) [])));
  marshal_ns_id = encode_or_fail;
  unmarshal_vlan_id = λ s. number_of (take_digits 0 s);
}

delivered : (out : Out HostEvent (Unit {0}) Reply) → Delivers encode out (response_of out)
delivered (ok r, _) s e =
    let same : r ≡ s = cc in (ap (λ (a : Reply). a.status) same, λ body read. cc)
delivered (err _, _) s e = absurd cc
delivered (panic, _) s e = absurd cc

has_body : (out : Out HostEvent (Unit {0}) Reply) → ¬ ((response_of out).body ≡ none)
has_body (ok _, _) e = cc
has_body (err _, _) e = cc
has_body (panic, _) e = cc

-- What the worker receives is the response.
received :
    (payload : String) (h : List HostEvent) (response : Response)
    → worker.http_post_answer (url variables) payload h ≡ inr (some response)
    → response_of (macvlan manager (pos 7) (some (inr payload)) []) ≡ response
received payload h response e = cc

read_back :
    (n : ℤ) (payload : String)
    → encode_or_fail n ≡ inr payload
    → number_of (take_digits 0 payload) ≡ inr n
read_back (pos n) payload e = rw (sym (inr_injective e)) (rw (take_digits-decimal n) refl)
read_back (negsuc _) payload e = absurd (inl_ne_inr e)

sent :
    (payload : String) (h : List HostEvent) (response : Response)
    → worker.http_post_answer (url variables) payload h ≡ inr (some response)
    → Delivers encode (macvlan manager (pos 7) (some (inr payload)) []) response
sent payload h response e =
    subst (Delivers encode (macvlan manager (pos 7) (some (inr payload)) []))
      (received payload h response e) (delivered (macvlan manager (pos 7) (some (inr payload)) []))

worker_main-IsConnected_example :
    Ends
      (λ _ _. IsConnected worker manager (pos 7) variables (λ _. []) encode [])
      (λ code _. code ≡ 1)
      (λ _. ⊥)
      (worker_main worker variables [])
worker_main-IsConnected_example =
    worker_main-IsConnected worker manager (pos 7) variables (λ _. []) encode sent
      (λ _ payload h response e.
        subst (λ (a : Response). ¬ (a.body ≡ none)) (received payload h response e)
          (has_body (macvlan manager (pos 7) (some (inr payload)) [])))
      (rw (take_digits-decimal 7) refl) (λ n _ payload _ e. read_back n payload e) []
