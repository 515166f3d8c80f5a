-- ===== src/Submission/Expressions.antt =====
-- scripts/check_submission.py: its regular expressions.
use civic_pulse_24i3089_24i.Prelude.{ℕ, Bool, not, ◌&&◌, ◌||◌, [], ◌∷◌, leb, ◌==◌}
use civic_pulse_24i3089_24i.Text.{Str, codes, is_space}
use civic_pulse_24i3089_24i.Prompt.{folds_to}
use civic_pulse_24i3089_24i.Pattern.{
  Pattern, one, empty, seq, either, many, group, ahead, text_start, text_end, line_start, line_end,
}
use civic_pulse_24i3089_24i.Pattern.Scan.{
  word, some_of, maybe, spaces, some_spaces, no_space, any_char,
}

abbrev pub key_char : ℕ → Bool
key_char c = leb 65 c && leb c 90 || leb 48 c && leb c 57 || c == 95

-- `(^|/)(\.env(\..+)?|.*\.pem|.*\.key|id_rsa.*)$`
unfoldable pub secret_filename : Pattern
secret_filename = seq (group (either text_start (word (codes "/")))) (
    seq
      (group (
        either
          (seq (word (codes ".env")) (maybe (group (seq (word (codes ".")) (some_of any_char)))))
          (either (seq (many any_char) (word (codes ".pem"))) (
            either (seq (many any_char) (word (codes ".key")))
              (seq (word (codes "id_rsa")) (many any_char))))))
      text_end)

-- `^\s*([A-Z0-9_]+):\s*(.+)$`
unfoldable pub secret_line : Pattern
secret_line = seq line_start (
    seq spaces (
      seq (group (some_of (one key_char)))
        (seq (word (codes ":")) (seq spaces (seq (group (some_of any_char)) line_end)))))

-- `^\s*image:\s*([^\s#]+)`
unfoldable pub image_line : Pattern
image_line = seq line_start (
    seq spaces (
      seq (word (codes "image:"))
        (seq spaces (group (some_of (one (λ c. not (is_space c) && not (c == 35))))))))

-- `^FROM\s+(\S+)`
unfoldable pub from_line : Pattern
from_line = seq line_start (seq (word (codes "FROM")) (seq some_spaces (group (some_of no_space))))

-- `networks:\s*\[([^\]]*)\]`
unfoldable pub networks_list : Pattern
networks_list = seq (word (codes "networks:")) (
    seq spaces
      (seq (word (codes "[")) (seq (group (many (one (λ c. not (c == 93))))) (word (codes "]")))))

-- `^\s*build:\s*$|^\s*build:\s*\S`
unfoldable pub build_key : Pattern
build_key =
    let key = seq line_start (seq spaces (seq (word (codes "build:")) spaces)) in
    either (seq key line_end) (seq key no_space)

-- `^\s*ports:`
unfoldable pub ports_key : Pattern
ports_key = seq line_start (seq spaces (word (codes "ports:")))

-- `type:\s*(NodePort|LoadBalancer)`
unfoldable pub open_type : Pattern
open_type =
    seq (word (codes "type:"))
      (seq spaces (group (either (word (codes "NodePort")) (word (codes "LoadBalancer")))))

-- `kubectl\s+(set image|apply)`
unfoldable pub kubectl_deploy : Pattern
kubectl_deploy =
    seq (word (codes "kubectl"))
      (seq some_spaces (group (either (word (codes "set image")) (word (codes "apply")))))

-- a word under `re.IGNORECASE`
abbrev pub any_case : Str → Pattern
any_case [] = empty
any_case (c ∷ w) = seq (one (folds_to c)) (any_case w)

-- `\[(Partner|add|Fill|describe|List real)`, under `re.IGNORECASE`
unfoldable pub bracketed : Pattern
bracketed = seq (word (codes "[")) (
    group (
      either (any_case (codes "partner")) (
        either (any_case (codes "add")) (
          either (any_case (codes "fill")) (
            either (any_case (codes "describe")) (
              seq (any_case (codes "list")) (seq (word (codes " ")) (any_case (codes "real")))))))))

module _ (is_word : ℕ → Bool) where
  -- `[\w-]`
  abbrev pub name_char : Pattern
  name_char = one (λ c. is_word c || c == 45)

  -- `&([\w-]+)\s+(\S+)`
  unfoldable pub anchor : Pattern
  anchor =
      seq (word (codes "&"))
        (seq (group (some_of name_char)) (seq some_spaces (group (some_of no_space))))

  -- `\n(?=  \w[\w-]*:\n)`
  unfoldable pub service_start : Pattern
  service_start = seq (one (λ c. c == 10)) (
      ahead (
        seq (word (codes "  "))
          (seq (one is_word) (seq (many name_char) (seq (word (codes ":")) (one (λ c. c == 10)))))))

  -- `\n(?=  [\w-]+:\n)`
  unfoldable pub job_start : Pattern
  job_start = seq (one (λ c. c == 10)) (
      ahead (
        seq (word (codes "  "))
          (seq (some_of name_char) (seq (word (codes ":")) (one (λ c. c == 10))))))
