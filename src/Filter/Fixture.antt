-- ===== src/Filter/Fixture.antt =====
-- Stand-ins for what the filters call outside the repository, for the tests: addresses are the values
-- of the metadata, and texts are passed through.
use mathlib.Core.Option.{some}
use baker.Common.{Bytes, [], ℕ, pos, length, ◌==◌}
use baker.Common.Strconv.{itoa}
use baker.Filter.External.{External, text, node, next, no_more}

abbrev pub fixture : External ℕ
fixture = record {
  as_url = λ v. some (some v);
  url_path = λ u. itoa u;
  url_string = λ u. itoa u;
  as_time = λ v. some (some (pos v));
  now = pos 1700000000;
  compile = λ s. some (λ t. length t == length s);
  query_param = λ s p. some s;
  query_escape = λ s. s;
  query_unescape = λ s. some s;
  md5 = λ s. s;
  sha256 = λ s. s;
  to_lower = λ s. s;
  Json = Bytes;
  decode = λ s. some s;
  view = λ s. text s;
  compile_path = λ s. some (λ j. j);
  parse_sexp = λ s. some (node [] (next (node s no_more) (next (node s no_more) no_more)));
}
