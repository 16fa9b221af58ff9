-- ===== src/Observability/Labels.antt =====
-- internal/observability/metrics.go: the order of `sortedHTTPKeys`.
use chroma_flow.Base.{Bool, true, false, ◌==◌, ◌≡◌, eq_iff, arith, if◌then◌else◌}
use chroma_flow.Base.Order.{
  Order, text_before, text_before_irrefl, text_before_trans, text_before_total,
}
use chroma_flow.Observability.Metrics.{HttpLabel}

-- The order of `sortedHTTPKeys`.
unfoldable pub label_before : HttpLabel → HttpLabel → Bool
label_before a b =
    if a.method == b.method
    then (if a.path == b.path then text_before a.code b.code else text_before a.path b.path)
    else text_before a.method b.method

pub label_before_irrefl : (a : HttpLabel) → label_before a a ≡ false
unfolding label_before
label_before_irrefl a =
    ground (arith, eq_iff a.method a.method, eq_iff a.path a.path, text_before_irrefl a.code)

pub label_before_trans :
    (a b c : HttpLabel)
    → label_before a b ≡ true
    → label_before b c ≡ true
    → label_before a c ≡ true
unfolding label_before
label_before_trans a b c h k = ground (
  arith,
  eq_iff a.method b.method,
  eq_iff b.method c.method,
  eq_iff a.method c.method,
  eq_iff a.path b.path,
  eq_iff b.path c.path,
  eq_iff a.path c.path,
  text_before_irrefl a.method,
  text_before_irrefl a.path,
  text_before_irrefl b.method,
  text_before_irrefl b.path,
  text_before_trans a.method b.method c.method,
  text_before_trans a.path b.path c.path,
  text_before_trans a.code b.code c.code,
  text_before_trans a.method b.method a.method,
  text_before_trans a.path b.path a.path,
)

pub label_before_total :
    (a b : HttpLabel) → label_before a b ≡ false → label_before b a ≡ false → a ≡ b
unfolding label_before
label_before_total a b h k = ground (
  arith,
  eq_iff a.method b.method,
  eq_iff b.method a.method,
  eq_iff a.path b.path,
  eq_iff b.path a.path,
  text_before_total a.method b.method,
  text_before_total a.path b.path,
  text_before_total a.code b.code,
)

instance abbrev pub HttpLabel-order : Order HttpLabel
HttpLabel-order = record {
  before = label_before;
  before_irrefl = label_before_irrefl;
  before_trans = label_before_trans;
  before_total = label_before_total;
}
