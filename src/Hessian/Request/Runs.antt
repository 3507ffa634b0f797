-- ===== src/Hessian/Request/Runs.antt =====
-- A concrete request.
use dubbogo.Base.{length, false, none, List, [], ◌∷◌, ◌==◌, ReaderLib, wrong_tag, err}
use dubbogo.Hessian.Text.{Text}
use dubbogo.Hessian.Args.{int32_arg}
use dubbogo.Hessian.Values.{Entries, FloatLib, int32}
use dubbogo.Hessian.Decoder.{decode, ObjectReader}
use dubbogo.Hessian.Request.{Request, Argument}

abbrev nil_lib : ReaderLib
nil_lib = record { trace_nil = none; annotatef_nil = none; available = λ s. length s }

abbrev whole_lib : FloatLib
whole_lib = record { from_int = λ n. n; to_int = λ n. n; same = λ a b. a == b; format = λ n. [] }

abbrev no_objects : ObjectReader
no_objects = record {
  dec_object = λ decode tag d. (err wrong_tag, d);
  dec_typed_map = λ decode d. (err wrong_tag, d);
}

abbrev no_change : Text → Text
no_change t = t

abbrev as_built : Entries → Entries
as_built es = es

abbrev get_user : Request
get_user = record {
  id = 5;
  heartbeat = false;
  service_path = b'p' ∷ [];
  target = b't' ∷ [];
  version = [];
  method = b'm' ∷ [];
  timeout = 0;
}

abbrev one_arg : List Argument
one_arg = record { typ = int32_arg; value = int32 7 } ∷ []
