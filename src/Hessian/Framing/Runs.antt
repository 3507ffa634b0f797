-- ===== src/Hessian/Framing/Runs.antt =====
-- Concrete packets.
use dubbogo.Base.{length, false, none, [], ◌==◌, ReaderLib, wrong_tag, err}
use dubbogo.Hessian.Header.{Message}
use dubbogo.Hessian.Values.{FloatLib}
use dubbogo.Hessian.Decoder.{ObjectReader}

abbrev nil_lib : ReaderLib
nil_lib = record { trace_nil = none; annotatef_nil = none; available = λ s. length s }

abbrev whole_lib : FloatLib
whole_lib = record { from_int = λ n. n; to_int = λ n. n; same = λ a b. a == b; format = λ n. [] }

abbrev no_objects : ObjectReader
no_objects = record {
  dec_object = λ decode tag d. (err wrong_tag, d);
  dec_typed_map = λ decode d. (err wrong_tag, d);
}

abbrev blank : Message
blank = record { id = 0; heartbeat = false; response = false; body_len = 0 }
