-- ===== src/Hessian/Framing/Packets.antt =====
-- Packets of an input are taken one by one.
use dubbogo.Base.{
  ℕ, ◌/◌, ◌%◌, ◌<◌, ◌≡◌, refl, ◌⊎◌, true, ◌||◌, Option, List, ◌++◌, arith, ltb, ◌==◌, length,
  ReaderLib,
}
use dubbogo.Hessian.Header.{Message}
use dubbogo.Hessian.Header.Echo.{answer_header}
use dubbogo.Hessian.Values.{FloatLib}
use dubbogo.Hessian.Decoder.{ObjectReader}
use dubbogo.Hessian.Response.{Target}
use dubbogo.Hessian.Framing.{
  peek_limit, peek_body, read_body, HessianCodec, body_not_enough, body_error,
}

-- The header of an answer to the request `id`, read off the input, and the body behind it.
abbrev pub answer_packet : ℕ → ℕ → ℕ → List ℕ → List ℕ
answer_packet flags status id body = answer_header flags status id (length body) ++ body

-- The message that an answer gives.
abbrev pub answered_message : ℕ → ℕ → ℕ → Message → Message
answered_message flags id n m = record {
  id = id;
  heartbeat = m.heartbeat || ((flags / 32) % 2 == 1);
  response = m.response || ((flags / 64) % 2 == 1);
  body_len = n;
}

abbrev pub codec_at : ℕ → ℕ → List ℕ → HessianCodec
codec_at mt n s = record { mt = mt; rsp_body_len = n; input = s }

module _ (lib : ReaderLib) (fl : FloatLib) (objects : ObjectReader) where
  -- A body of more than 4096 bytes is never read, however much of it is there, and stays in the input.
  read_body-too_long :
      (ret : Option Target) (c : HessianCodec)
      → (c.mt ≡ 4) ⊎ (c.mt ≡ 8)
      → peek_limit < c.rsp_body_len
      → read_body lib fl objects ret c ≡ (body_error body_not_enough, c)
  unfolding read_body peek_body
  read_body-too_long ret c kind long =
      let over : ltb peek_limit c.rsp_body_len ≡ true = ground arith in
      let read : c.mt == 8 || c.mt == 4 ≡ true = ground arith in rw (read, over) refl
