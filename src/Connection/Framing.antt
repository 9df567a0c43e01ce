-- ===== src/Connection/Framing.antt =====
-- gpu-proxy-cpp/src/connection.cpp: how `process_read_buffer` cuts lines off the read buffer.
use compute_market.Base.{[], ◌∷◌, Option, none, some, ◌==◌, if◌then◌else◌}
use compute_market.Base.Text.{Text}

-- `read_buffer_.find('\n')`, with the two parts around the newline.
unfoldable pub frame : Text → Option (Text × Text)
frame [] = none
frame (c ∷ s) =
    if c == b'\n'
    then some ([], s)
    else elim (frame s) [ none ↦ none | some (line, after) ↦ some (c ∷ line, after) ]

-- `if (!line.empty() && line.back() == '\r') line.pop_back()`
unfoldable pub strip_cr : Text → Text
strip_cr [] = []
strip_cr (c ∷ []) = if c == b'\r' then [] else c ∷ []
strip_cr (c ∷ d ∷ s) = c ∷ strip_cr (d ∷ s)

unfoldable pub next_line : Text → Option (Text × Text)
unfolding frame strip_cr
next_line s = elim (frame s) [ none ↦ none | some (line, after) ↦ some (strip_cr line, after) ]
