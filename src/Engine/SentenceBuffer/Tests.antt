-- ===== src/Engine/SentenceBuffer/Tests.antt =====
-- Two sentences in one chunk, and the start of a third.
use voxedge.Base.{ℕ, Bool, Option, List, [], ◌∷◌, ◌++◌, ◌==◌, arith}
use voxedge.Text.Strip.{Text}
use voxedge.Engine.SentenceBuffer.{SentenceBuffer, add}
use voxedge.Engine.SentenceBuffer.Conservation.{Speaks, add-Speaks}

abbrev is_space : ℕ → Bool
is_space c = c == 32

abbrev fresh : SentenceBuffer
fresh = record { buf = []; min_chars = 2; max_buffer = 200 }

-- "Hi there. 3.5 m! So"
abbrev reply : Text
reply =
    72 ∷ 105 ∷ 32 ∷ 116 ∷ 104 ∷ 101 ∷ 114 ∷ 101 ∷ 46 ∷ 32 ∷ 51 ∷ 46 ∷ 53 ∷ 32 ∷ 109 ∷ 33 ∷ 32 ∷ 83
    ∷ 111 ∷ []

abbrev sentences : Option (List Text × SentenceBuffer)
sentences = add is_space reply fresh

add-Speaks_example : Speaks is_space (fresh.buf ++ reply) (add is_space reply fresh)
add-Speaks_example = add-Speaks is_space reply fresh (omega arith)
