-- ===== src/Filter/External.antt =====
-- What the filters call and the repository does not hold: regular expressions, URLs, digests, JSON,
-- the clock, and the types behind the values of a record's metadata.
use mathlib.Core.Option.{Option}
use baker.Common.{Bytes, ℕ, ℤ, Bool}

-- What postProcessJSON tells apart in a value: a number, a string, a Boolean, or else its JSON text.
pub data JsonView : Type 0 where
  number : Bytes → JsonView
  text : Bytes → JsonView
  boolean : Bool → JsonView
  other : Bytes → JsonView

-- `sexp.Node`: the value of a scalar, which is empty for a list, and the list of its children.
mutual
  pub data Node : Type 0 where
    node : Bytes → Nodes → Node

  pub data Nodes : Type 0 where
    no_more : Nodes
    next : Node → Nodes → Nodes

pub record External (V : Type 0) : Type 1 where
  -- `v.(*url.URL)`: `none` if the type is another, `some none` for a nil pointer, else an address.
  pub as_url : V → Option (Option ℕ)
  pub url_path : ℕ → Bytes
  pub url_string : ℕ → Bytes
  -- `v.(time.Time)` likewise, with `some none` for the zero time, else the Unix time in seconds.
  pub as_time : V → Option (Option ℤ)
  -- `time.Now().Unix()`
  pub now : ℤ
  -- `regexp.Compile`, and `Match` of what it returns
  pub compile : Bytes → Option (Bytes → Bool)
  -- `url.Parse(s)` and then `Query().Get(param)`; `none` if `s` is not a URL.
  pub query_param : Bytes → Bytes → Option Bytes
  pub query_escape : Bytes → Bytes
  pub query_unescape : Bytes → Option Bytes
  pub md5 : Bytes → Bytes
  pub sha256 : Bytes → Bytes
  pub to_lower : Bytes → Bytes
  -- A decoded JSON value; `none` where the text has none.
  pub Json : Type 0
  pub decode : Bytes → Option Json
  pub view : Json → JsonView
  -- `jmespath.Compile`, and `Search` of what it returns, on a value or nil; `none` for an error or nil.
  pub compile_path : Bytes → Option (Option Json → Option Json)
  -- The first child of the node that `sexp.Parse` returns; `none` for nil.
  pub parse_sexp : Bytes → Option Node
