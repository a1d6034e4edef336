-- ===== src/Uci/Plain.antt =====
-- An instance of what crates/oa-gateway-uci calls, for tests.
use oa_gateway.Prelude.{ℕ, ◌+◌, true, none, some, ltb, leb}
use oa_gateway.Prelude.Attempt.{done, refused}
use oa_gateway.Text.{Text, codes}
use oa_gateway.Text.Decimal.{parse_usize, print_usize}
use oa_gateway.Text.Integer.{pos, negsuc}
use oa_gateway.Uci.Schema.{Calls}
use oa_gateway.Uci.Json.{Value, Serde}

-- Numbers for `f64`, and patterns that all match.
abbrev pub plain : Calls
plain = record {
  F64 = ℕ;
  max_f64 = λ a b. a + b;
  min_f64 = λ a b. a;
  lt_f64 = ltb;
  le_f64 = leb;
  parse_f64 = parse_usize;
  show_f64 = λ n. print_usize n;
  Regex = Text;
  compile = some;
  is_match = λ r t. true;
  capture = λ r name t. none;
  of_nat = λ n. n;
  Number = ℕ;
  show_number = λ n. print_usize n;
}

-- A parser that gives one value.
abbrev pub plain_json : Value plain → Serde plain
plain_json v = record {
  parse = λ t. done v;
  print = λ v. refused (codes "no printer");
  show = λ v. codes "value";
  of_i64 = λ n. elim n [ pos k ↦ k | negsuc k ↦ k ];
  of_f64 = some;
}
