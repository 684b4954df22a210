-- ===== src/Queue/Priority.antt =====
-- `JobPriority` of src/queue.rs and its texts.
use hostinger.Prelude.{
  String, ◌≡◌, refl, ap, ◌∙◌, ◌↔◌, arith, str_eq, str_append, eq_iff, if◌then◌else◌,
}
use hostinger.Exec.{Result, ok, err}

pub data JobPriority : Type 0 where
  production preview : JobPriority

unfoldable pub as_str : JobPriority → String
as_str production = "production"
as_str preview = "preview"

unfoldable pub from_str : String → Result String JobPriority
from_str s =
    if str_eq s "production"
    then ok production
    else if str_eq s "preview"
    then ok preview
    else err (str_append "invalid job priority: " s)

from_str_only : (t : String) (p : JobPriority) → from_str t ≡ ok p → t ≡ as_str p
unfolding from_str as_str
from_str_only t p h = ground (arith, eq_iff t "production", eq_iff t "preview")

from_str-as_str : (p : JobPriority) → from_str (as_str p) ≡ ok p
unfolding from_str as_str
from_str-as_str production = refl
from_str-as_str preview = refl

-- A text is read as a priority exactly if it is the text that is written for that priority.
pub from_str_exact : (t : String) (p : JobPriority) → (from_str t ≡ ok p) ↔ (t ≡ as_str p)
from_str_exact t p = (from_str_only t p, λ e. ap from_str e ∙ from_str-as_str p)
