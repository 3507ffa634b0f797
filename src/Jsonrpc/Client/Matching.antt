-- ===== src/Jsonrpc/Client/Matching.antt =====
-- A response finds the method of the request that it answers.
use Prim.Native.String.{String}
use dubbogo.Base.{
  ℕ, ◌^◌, ◌<◌, ◌≡◌, refl, ◌∙◌, ◌≢◌, Option, List, [], ◌∷◌, arith, All, nat_key, string_key,
  same_self, lookup, lookup-insert, lookup-delete,
}
use dubbogo.Jsonrpc.Client.{
  masked, write, read_header, Param, ClientRequest, ClientCodec, Response, sent, end, malformed,
  response, unknown_id, header,
}
use dubbogo.Jsonrpc.Server.{Raw}

pub data Call : Type 0 where
  writes : ℕ → String → Param → Call
  reads : Response → Call

unfoldable pub step : ClientCodec → Call → ClientCodec
step c (writes id method param) = (write c id method param).0
step c (reads r) = (read_header c r).0

unfoldable pub run : ClientCodec → List Call → ClientCodec
run c [] = c
run c (a ∷ calls) = run (step c a) calls

-- The call leaves the entry of an id alone: it writes no request and reads no response of that id.
abbrev pub Spares : ℕ → Call → Type 0
Spares k (writes id method param) = masked id ≢ k
Spares k (reads end) = Unit
Spares k (reads malformed) = Unit
Spares k (reads (response id error)) = id ≢ k

step-Spares :
    (k : ℕ) (c : ClientCodec) (a : Call)
    → Spares k a
    → lookup k (step c a).pending ≡ lookup k c.pending
unfolding step write read_header
step-Spares k c (writes id method param) h =
    ground (arith, lookup-insert (masked id) k method c.pending)
step-Spares k c (reads end) h = refl
step-Spares k c (reads malformed) h = refl
step-Spares k c (reads (response id error)) h = ground (arith, lookup-delete id k c.pending)

run-Spares :
    (k : ℕ) (c : ClientCodec) (calls : List Call)
    → All (Spares k) calls
    → lookup k (run c calls).pending ≡ lookup k c.pending
unfolding run
run-Spares k c [] h = refl
run-Spares k c (a ∷ calls) h = run-Spares k (step c a) calls h.1 ∙ step-Spares k c a h.0

-- A request goes out under an id below 2^31, and its response gives back the method, whatever other
-- requests are written and responses read in between, as long as none has the same masked id; the
-- same response once more is refused.
pub read_header-write :
    (c d : ClientCodec) (id : ℕ) (method : String) (param : Param) (q : ClientRequest)
    (calls : List Call) (error : Option Raw)
    → write c id method param ≡ (d, sent q)
    → All (Spares q.id) calls
    → let e = run d calls in
      let answer = response q.id error in
      let after = (read_header e answer).0 in
      (q.id < 2 ^ 31)
      × ((read_header e answer).1 ≡ header q.id method error)
      × (read_header after answer ≡ (after, unknown_id))
unfolding write read_header
read_header-write c d id method param q calls error e h = ground (
  arith,
  run-Spares q.id d calls h,
  lookup-insert (masked id) (masked id) method c.pending,
  lookup-delete (masked id) (masked id) (run d calls).pending,
  same_self (masked id),
)
