-- ===== src/Hessian/Values.antt =====
-- The values that codec/hessian writes and reads, as Go's `interface{}` holds them.
use dubbogo.Base.{ℕ, Bool, List}
use dubbogo.Hessian.Text.{Text}
use dubbogo.Hessian.Classes.{GoType, Pojo}

-- An instant by its distance from 1970, in nanoseconds, before it or not.
pub record Instant : Type 0 where
  pub before : Bool
  pub nanos : ℕ

-- An int16, an int32, an int64, a float64 and a Java enum are their bit patterns. A map is the
-- assignments `m[k] = v` in their order; `typed_map` is a map of another Go type than
-- `map[interface{}]interface{}`, where `SetMapIndex` with a null takes a key out. `ref i` is the
-- pointer to the slot `i` of the decoder's references, `pojo` a value with a method
-- `JavaClassName`, and `struct_value` the `reflect.Value` of a struct, each with its fields in order.
mutual
  pub data Value : Type 0 where
    null : Value
    bool : Bool → Value
    int16 : ℕ → Value
    int32 : ℕ → Value
    int64 : ℕ → Value
    date : Instant → Value
    double : ℕ → Value
    text : Text → Value
    binary : List ℕ → Value
    list : Items → Value
    go_map : Entries → Value
    typed_map : Entries → Value
    ref : ℕ → Value
    enum : ℕ → Value
    pojo : Pojo → Items → Value
    struct_value : GoType → Items → Value

  pub data Items : Type 0 where
    no_items : Items
    item : Value → Items → Items

  pub data Entries : Type 0 where
    no_entries : Entries
    entry : Value → Value → Entries → Entries

-- What Go and its library do with a float64, given by its bit pattern: the conversions from and to
-- an int64, `==`, and `strconv.FormatFloat(f, 'E', -1, 64)`.
pub record FloatLib : Type 0 where
  pub from_int : ℕ → ℕ
  pub to_int : ℕ → ℕ
  pub same : ℕ → ℕ → Bool
  pub format : ℕ → Text
