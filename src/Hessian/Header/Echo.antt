-- ===== src/Hessian/Header/Echo.antt =====
-- Which answers to a request's header are read, and what they give.
use mathlib.Core.Path.{ap₂}
use dubbogo.Base.{
  ℕ, ◌+◌, ◌*◌, ◌/◌, ◌%◌, ◌^◌, ◌≤◌, ◌<◌, ◌≡◌, refl, sym, ap, ◌∙◌, ◌≢◌, ◌↔◌, ◌⊎◌, inl, inr, Bool,
  true, false, not, ◌&&◌, ◌||◌, none, some, List, ◌∷◌, ◌++◌, arith, ltb, ◌==◌, Bool-cases, ==_false,
  length, take, drop,
}
use dubbogo.Hessian.Words.{IsWord32, IsWord64}
use dubbogo.Hessian.Reader.{be}
use dubbogo.Hessian.Header.{
  header_length, flag_byte, bytes32, put_uint64, request_header, default_len, pack, at,
  unpack_numbers, unpack_flags, unpack_flagged, unpack_response_header, HeaderError, Message,
  illegal_package, zero_serial_id, request_flag,
}

-- The header of an answer, as the protocol asks for it: flags without that of a request, a status,
-- the request's id, and the length of the body.
unfoldable pub answer_header : ℕ → ℕ → ℕ → ℕ → List ℕ
answer_header flags status id body = 0xda ∷ 0xbb ∷ flags ∷ status ∷ put_uint64 id ++ bytes32 body

be-bytes32 : (v : ℕ) → IsWord32 v → be (bytes32 v) ≡ v
unfolding bytes32
be-bytes32 v h = omega arith

be-put_uint64 : (v : ℕ) → IsWord64 v → be (put_uint64 v) ≡ v
unfolding put_uint64 bytes32
be-put_uint64 v h = omega arith

-- An answer with a serialization id and without the request flag is read: its id, the length of its
-- body and its flags come back, with ErrJavaException exactly where the status is not OK.
pub unpack-answer :
    (flags status id body : ℕ) (m : Message)
    → 0 < flags % 32
    → flags < 128
    → IsWord64 id
    → IsWord32 body
    → unpack_response_header (answer_header flags status id body) m ≡ (
      inr (not (status == 20)),
      record {
        id = id;
        heartbeat = m.heartbeat || ((flags / 32) % 2 == 1);
        response = m.response || ((flags / 64) % 2 == 1);
        body_len = body;
      },
    )
unfolding unpack_response_header unpack_flagged answer_header at unpack_flags unpack_numbers
    put_uint64 bytes32
unpack-answer flags status id body m serial flag wide small =
    let plain : (flags / 128) % 2 ≡ 0 = omega arith in
    let some_serial : flags % 32 == 0 ≡ false = ground arith in
    rw (some_serial, plain)
      (ap₂
        (λ i l. (
          inr (not (status == 20)),
          record {
            id = i;
            heartbeat = m.heartbeat || ((flags / 32) % 2 == 1);
            response = m.response || ((flags / 64) % 2 == 1);
            body_len = l;
          },
        ))
        (be-put_uint64 id wide) (be-bytes32 body small))

-- A request's header is never read as that of a response.
pub unpack-request_header :
    (heartbeat : Bool) (id body : ℕ) (m : Message)
    → (e : HeaderError) × ((unpack_response_header (request_header heartbeat id body) m).0 ≡ inl e)
unfolding unpack_response_header unpack_flagged request_header at flag_byte
unpack-request_header true id body m =
    let flag : ((0xef + 16 * ((id / 16) % 2)) / 128) % 2 ≡ 1 = omega arith in
    let serial : (0xef + 16 * ((id / 16) % 2)) % 32 == 0 ≡ false = ground arith in
    (request_flag, rw (serial, flag) refl)
unpack-request_header false id body m = elim (Bool-cases ((0xc0 + id % 32) % 32 == 0)) [
  | inl zero_serial ↦ (zero_serial_id, rw zero_serial refl)
  | inr serial ↦
      let flag : ((0xc0 + id % 32) / 128) % 2 ≡ 1 = omega arith in
      (request_flag, rw (serial, flag) refl)
]

differ :
    (e : HeaderError)
    → e ≢ illegal_package
    → ◌≢◌ {A = HeaderError ⊎ Bool} (inl e) (inl illegal_package)
differ e ne h = ne (grind arith)

apart : (b : Bool) → ◌≢◌ {A = HeaderError ⊎ Bool} (inr b) (inl illegal_package)
apart b h = ground arith

flagged_is_legal : (buf : List ℕ) (m : Message) → (unpack_flagged buf m).0 ≢ inl illegal_package
unfolding unpack_flagged
flagged_is_legal buf m h = elim (Bool-cases (at buf 2 % 32 == 0)) [
  | inl y ↦
      let found : (unpack_flagged buf m).0 ≡ inl zero_serial_id = rw y refl in
      differ zero_serial_id (λ e. ground arith) (sym found ∙ h)
  | inr n ↦ elim (Bool-cases ((at buf 2 / 128) % 2 == 1)) [
    | inl y ↦
        let found : (unpack_flagged buf m).0 ≡ inl request_flag = rw (n, y) refl in
        differ request_flag (λ e. ground arith) (sym found ∙ h)
    | inr z ↦
        let found : (unpack_flagged buf m).0 ≡ inr (not (at buf 3 == 20)) = rw (n, z) refl in
        apart (not (at buf 3 == 20)) (sym found ∙ h)
  ]
]

-- A packet is refused for its magic number exactly where both of its first two bytes are wrong.
pub illegal_package_iff :
    (b c : ℕ) (rest : List ℕ) (m : Message)
    → ((unpack_response_header (b ∷ c ∷ rest) m).0 ≡ inl illegal_package)
      ↔ ((b ≢ 0xda) × (c ≢ 0xbb))
unfolding unpack_response_header at
illegal_package_iff b c rest m = (
  λ h. elim (Bool-cases (not (b == 0xda) && not (c == 0xbb))) [
    | inl y ↦ (λ e. ground arith, λ e. ground arith)
    | inr n ↦
        let found : unpack_response_header (b ∷ c ∷ rest) m ≡ unpack_flagged (b ∷ c ∷ rest) m =
          rw n refl in
        absurd (flagged_is_legal (b ∷ c ∷ rest) m (sym (ap (λ r. r.0) found) ∙ h))
  ],
  λ h. rw (==_false b 0xda h.0, ==_false c 0xbb h.1) refl,
)

-- A packet is its body behind a header of 16 bytes that holds the id and the length of the body, and
-- is refused exactly where this would be longer than the bound.
pub pack_cases :
    (heartbeat : Bool) (id : ℕ) (body : List ℕ)
    → IsWord64 id
    → ((default_len < length body + 16) × (pack heartbeat id body ≡ none))
      ⊎ ((length body + 16 ≤ default_len)
          × ((head : List ℕ) × (pack heartbeat id body ≡ some (head ++ body))
              × (length head ≡ 16)
              × (be (take 8 (drop 4 head)) ≡ id)
              × (be (take 4 (drop 12 head)) ≡ length body)))
unfolding pack request_header put_uint64 bytes32
pack_cases heartbeat id body wide =
    elim (Bool-cases (ltb default_len (header_length + length body))) [
      | inl y ↦ inl (ground arith, rw y refl)
      | inr n ↦
          let bound : length body + 16 ≤ default_len = ground arith in
          let whole : length body % 2 ^ 32 ≡ length body = omega arith in
          inr (
            bound,
            (
              request_header heartbeat id (length body),
              rw n refl,
              refl,
              be-put_uint64 id wide,
              be-bytes32 (length body % 2 ^ 32) (omega arith) ∙ whole,
            ),
          )
    ]
