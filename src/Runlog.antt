-- ===== src/Runlog.antt =====
-- internal/web/runlog: the log of a run, without its lock.
use infra_shelf.Common.{Bytes, List, [], ◌∷◌, ◌++◌, if◌then◌else◌}
use infra_shelf.Common.Text.{is_empty, trim_space, join}

-- The kinds of a message of the reporter.
pub data Kind : Type 0 where
  success error info warn title : Kind

-- The mark of a kind, in UTF-8.
abbrev pub mark : Kind → Bytes
mark success = 226 ∷ 156 ∷ 148 ∷ []
mark error = 226 ∷ 156 ∷ 152 ∷ []
mark info = 226 ∷ 132 ∷ 185 ∷ []
mark warn = 226 ∷ 154 ∷ 160 ∷ []
mark title = 226 ∷ 128 ∷ 186 ∷ []

abbrev pub Buffer : Type 0
Buffer = List Bytes

pub add : Kind → Bytes → Buffer → Buffer
add kind msg lines =
    let trimmed = trim_space msg in
    if is_empty trimmed then lines else lines ++ (mark kind ++ b' ' ∷ trimmed) ∷ []

unfoldable pub append_line : Bytes → Buffer → Buffer
append_line line lines =
    let trimmed = trim_space line in if is_empty trimmed then lines else lines ++ trimmed ∷ []

unfoldable pub text : Buffer → Bytes
text lines = trim_space (join lines (b'\n' ∷ []))
