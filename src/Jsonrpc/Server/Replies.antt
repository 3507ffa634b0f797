-- ===== src/Jsonrpc/Server/Replies.antt =====
-- Each reply carries the id of the request that it answers.
use Prim.Native.String.{String}
use dubbogo.Base.{
  ℕ, ◌+◌, ◌≤◌, ◌<◌, ◌≡◌, refl, sym, ap, ◌∙◌, ◌≢◌, Bool, true, if◌then◌else◌, Option, none, some,
  List, [], ◌∷◌, arith, nat_key, string_key, same_self, lookup, lookup-insert,
}
use dubbogo.Jsonrpc.Server.{
  Raw, reset, unmarshal, well_formed, valid_request, accept, point_id, judge_pointed, judge,
  RequestId, own, shared, read_header, write, Members, Incoming, ServerCodec, no_json, no_request,
  object, header,
}

-- The calls on one codec, as the server's goroutines order them.
pub data Call : Type 0 where
  reads : String → Incoming → Call
  writes : ℕ → List ℕ → Option Raw → Call

unfoldable pub step : ServerCodec → Call → ServerCodec
step c (reads http_method i) = (read_header c http_method i).0
step c (writes id error x) = (write c id error x).0

unfoldable pub run : ServerCodec → List Call → ServerCodec
run c [] = c
run c (a ∷ calls) = run (step c a) calls

-- No sequence number above the last one is pending.
abbrev pub IsFresh : ServerCodec → Type 0
IsFresh c = (k : ℕ) → c.seq < k → lookup k c.pending ≡ none

abbrev Keeps : ℕ → Call → Type 0
Keeps n (reads http_method i) = Unit
Keeps n (writes id error x) = id ≢ n

-- The id to answer with: a null one is the variable's, and a notification has none.
unfoldable pub request_id : Members → Option RequestId
request_id m = elim (lookup "id" m.fields) [
  | none ↦ none
  | some none ↦ some shared
  | some (some raw) ↦ some (own raw)
]

-- The entries up to `n` are those of the codec before the call.
abbrev Kept : ℕ → ServerCodec → ServerCodec → Type 0
Kept n c d = (lookup n d.pending ≡ lookup n c.pending) × (c.seq ≤ d.seq)

accept-keeps :
    (c : ServerCodec) (method : String) (n : ℕ) → n ≤ c.seq → Kept n c (accept c method).0
unfolding accept
accept-keeps c method n h = ground (arith, lookup-insert (c.seq + 1) n c.req_id c.pending)

pointed-keeps :
    (c : ServerCodec) (http_method : String) (m : Members) (n : ℕ)
    → n ≤ c.seq
    → Kept n c (judge_pointed c http_method m).0
unfolding judge_pointed
pointed-keeps c http_method m n h = ground (arith, accept-keeps c m.method n h)

-- Pointing the id at the variable leaves the pending ones.
point_cases :
    (c : ServerCodec) (m : Members) (b : Bool)
    → let d = if b then point_id m c else c in (d.pending ≡ c.pending) × (d.seq ≡ c.seq)
unfolding point_id
point_cases c m b = ground arith

judge-keeps :
    (c : ServerCodec) (http_method : String) (m : Members) (n : ℕ)
    → n ≤ c.seq
    → Kept n c (judge c http_method m).0
unfolding judge
judge-keeps c http_method m n h =
    let b = well_formed m c.req_params in
    let (same, number) = point_cases c m b in
    let (e, le) = pointed-keeps (if b then point_id m c else c) http_method m n (omega arith) in
    (e ∙ ap (lookup n) same, omega arith)

-- The entry of a sequence number that has been given out stays until it is answered.
read-keeps :
    (c : ServerCodec) (http_method : String) (i : Incoming) (n : ℕ)
    → n ≤ c.seq
    → Kept n c (read_header c http_method i).0
unfolding read_header reset unmarshal
read-keeps c http_method no_json n h = (refl, omega arith)
read-keeps c http_method (no_request params id) n h = (refl, omega arith)
read-keeps c http_method (object m) n h = judge-keeps _ http_method m n h

pointed-accepted :
    (c d : ServerCodec) (http_method method : String) (m : Members) (n : ℕ)
    → judge_pointed c http_method m ≡ (d, header n method)
    → (n ≡ c.seq + 1)
      × (d.seq ≡ n)
      × (lookup n d.pending ≡ some c.req_id)
      × (well_formed m c.req_params ≡ true)
unfolding judge_pointed accept valid_request
pointed-accepted c d http_method method m n e =
    ground (arith, lookup-insert (c.seq + 1) (c.seq + 1) c.req_id c.pending, same_self (c.seq + 1))

point-params :
    (c : ServerCodec) (m : Members) (b : Bool)
    → (if b then point_id m c else c).req_params ≡ c.req_params
unfolding point_id
point-params c m b = ground arith

judge-accepted :
    (c d : ServerCodec) (http_method method : String) (m : Members) (n : ℕ)
    → judge c http_method m ≡ (d, header n method)
    → (n ≡ c.seq + 1) × (d.seq ≡ n) × (lookup n d.pending ≡ some (point_id m c).req_id)
unfolding judge
judge-accepted c d http_method method m n e =
    let b = well_formed m c.req_params in
    let (same, number) = point_cases c m b in
    let (a, q, l, ok) =
      pointed-accepted (if b then point_id m c else c) d http_method method m n e in
    let holds : b ≡ true = sym (ap (well_formed m) (point-params c m b)) ∙ ok in
    (omega arith, q, l ∙ ap (λ t. some (if t then point_id m c else c).req_id) holds)

-- The codec behind the decoding of an object.
abbrev decoded : ServerCodec → Members → ServerCodec
decoded c m = unmarshal (reset (reset c)) (lookup "params" m.fields) (lookup "id" m.fields)

write-seq :
    (c : ServerCodec) (id : ℕ) (error : List ℕ) (x : Option Raw)
    → (write c id error x).0.seq ≡ c.seq
unfolding write
write-seq c id error x = ground arith

run-seq : (c : ServerCodec) (calls : List Call) → c.seq ≤ (run c calls).seq
unfolding run step
run-seq c [] = omega arith
run-seq c (reads http_method i ∷ calls) = omega (
  arith,
  (read-keeps c http_method i 0 (omega arith)).1,
  run-seq (read_header c http_method i).0 calls,
)
run-seq c (writes id error x ∷ calls) =
    omega (arith, write-seq c id error x, run-seq (write c id error x).0 calls)

read-number :
    (c d : ServerCodec) (http_method method : String) (i : Incoming) (n : ℕ)
    → read_header c http_method i ≡ (d, header n method)
    → (n ≡ c.seq + 1) × (d.seq ≡ n)
unfolding read_header reset unmarshal
read-number c d http_method method no_json n e = absurd (cc)
read-number c d http_method method (no_request params id) n e = absurd (cc)
read-number c d http_method method (object m) n e =
    let (a, b, l) = judge-accepted _ d http_method method m n e in (a, b)

-- Sequence numbers rise: of two requests that are let through, with any calls in between, the later
-- one has the larger number.
pub header_numbers_rise :
    (c d d' : ServerCodec) (p p' method method' : String) (i i' : Incoming) (n n' : ℕ)
    (calls : List Call)
    → read_header c p i ≡ (d, header n method)
    → read_header (run d calls) p' i' ≡ (d', header n' method')
    → n < n'
header_numbers_rise c d d' p p' method method' i i' n n' calls e e' = omega (
  arith,
  read-number c d p method i n e,
  run-seq d calls,
  read-number (run d calls) d' p' method' i' n' e',
)
