-- ===== src/Connection/Frames/Tests.antt =====
-- A frame of three bytes.
use replicated_file_system.Common.{◌≡◌, none, [], ◌∷◌, take, false, ltb, if◌then◌else◌, arith}
use replicated_file_system.Errors.{stream, read_header, read_body}
use replicated_file_system.Connection.Perspective.{err_is}
use replicated_file_system.Connection.Frames.{recv, send}
use replicated_file_system.Connection.Frames.Roundtrip.{recv-cut}

recv-cut_example :
    recv none none (take 10 (send none none false (1 ∷ 2 ∷ 3 ∷ [])).0)
    ≡ err_is (stream (if ltb 10 8 then read_header else read_body))
recv-cut_example = recv-cut (1 ∷ 2 ∷ 3 ∷ []) 10 (omega arith) (omega arith)
