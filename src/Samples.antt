-- ===== src/Samples.antt =====
-- A site for the tests: texts stand for numbers by their length, and every text is well formed
-- where that is not what decides.
use Prim.Native.String.{String, [], ◌∷◌}
use logicore_wms.Base.{ℕ, zero, suc, true, List, Option, none, some, ◌≡◌, refl, ap}
use logicore_wms.Platform.Types.{Context}
use logicore_wms.Platform.Tx.{Store}

abbrev marks : ℕ → String
marks zero = ""
marks (suc n) = "x" ∷ marks n

abbrev chars : String → ℕ
chars [] = 0
chars (_ ∷ s) = suc (chars s)

chars-marks : (n : ℕ) → chars (marks n) ≡ n
chars-marks zero = refl
chars-marks (suc n) = ap suc (chars-marks n)

abbrev uuid_text : ℕ → String
uuid_text n = marks (suc n)

abbrev uuid_cast : String → Option ℕ
uuid_cast [] = none
uuid_cast (_ ∷ s) = some (chars s)

abbrev pub site : Context
site = record {
  name = "inventory";
  correlation = "request";
  traceparent = "";
  now = 1000;
  today = 10;
  db_now = 1000;
  current_date = 10;
  is_uuid = λ _. true;
  cast = uuid_cast;
  text = uuid_text;
  parse_date = uuid_cast;
  parse_time = λ _. some 2000;
  event_id = uuid_text;
  new_id = 7;
}

pub site-reads : (k : ℕ) → site.cast (site.text k) ≡ some k
site-reads k = ap some (chars-marks k)

abbrev pub store_of : {T : Type 0} → T → Store T
store_of t = record {
  tables = t;
  outbox = List.[];
  processed = List.[];
  commands = List.[];
  locks = List.[];
}
