-- ===== src/Sha256Sum/Tests.antt =====
-- Calls and lines of `sha256sum` on small inputs.
use trekker.Prelude.{◌≡◌, refl, List, [], ◌∷◌, ◌++◌, All}
use trekker.Text.{Text, codes, split, trim_end_space, is_space}
use trekker.Sha256Sum.{
  Digests, chunk_paths, parse_sum_lines, take_lines, take_line, sum_fields, sum_digest, sum_path,
  unescape_path, set_digest,
}
use trekker.Sha256Sum.Chunks.{IsCall, concat, chunk_paths-AreCalls}
use trekker.Sha256Sum.Escapes.{}
use trekker.Text.Trim.{ends_open}
use trekker.Sha256Sum.Lines.{sum_output, set_digests, parse_sum_lines-sum_output}

abbrev paths : List Text
paths = codes "/a" ∷ codes "/b" ∷ []

chunk_paths-AreCalls_example : (concat (chunk_paths paths) ≡ paths) × All IsCall (chunk_paths paths)
chunk_paths-AreCalls_example = chunk_paths-AreCalls paths

abbrev digest : Text
digest = codes "0123456789abcdef0123456789abcdef0123456789abcdef0123456789abcdef"

-- A name with a backslash and an `n`, and one with a newline.
abbrev files : Digests
files = (codes "/od\\name", digest) ∷ (codes "/a\nb", digest) ∷ []

parse_sum_lines-sum_output_example : parse_sum_lines (sum_output files) ≡ set_digests files []
unfolding ends_open is_space
parse_sum_lines-sum_output_example =
    parse_sum_lines-sum_output files
      (((refl, refl), (refl, refl)), (((refl, refl), (refl, refl)), tt))

-- A path that ends in a space is filed without it.
parse_sum_lines_trimmed : parse_sum_lines (digest ++ codes "  /a \n") ≡ (codes "/a", digest) ∷ []
unfolding parse_sum_lines take_lines take_line sum_fields sum_digest sum_path unescape_path
    set_digest trim_end_space is_space split
parse_sum_lines_trimmed = refl
