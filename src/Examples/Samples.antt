-- ===== src/Examples/Samples.antt =====
-- Inputs that the examples share.
use ahara_collector.Prelude.{true, some, Text, codes, ◌*◌, ◌-◌, ◌^◌, min}
use ahara_collector.Prelude.Int.{pos}
use ahara_collector.Prelude.Decimal.{number_from}
use ahara_collector.Json.Syntax.{Floats}

-- Floats whose only spelling is the text that was read.
abbrev pub spelled : Floats
spelled = record {
  F64 = Text;
  parse = λ s. some s;
  display = λ s. s;
  is_finite = λ s. true;
  from_int = λ i. codes "int";
  mul_1e6 = λ s. pos (min (number_from 0 s * 1000000) (2 ^ 63 - 1));
}
