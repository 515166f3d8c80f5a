-- ===== src/Submission/Secrets.antt =====
-- scripts/check_submission.py: which names of committed files `SECRET_FILENAME_RE` finds.
use mathlib.Core.Path.{ap₂}
use civic_pulse_24i3089_24i.Prelude.{
  ℕ, ◌≤◌, ◌<◌, ◌≡◌, ◌≢◌, refl, ap, ◌∙◌, Bool, true, false, not, ◌&&◌, ◌||◌, [], ◌∷◌, ◌++◌, length,
  length-append, any, any-append, arith, ◌==◌, ltb,
}
use civic_pulse_24i3089_24i.Text.{Str, codes, ◌===◌, starts_with}
use civic_pulse_24i3089_24i.Pattern.{at_end}
use civic_pulse_24i3089_24i.Pattern.Scan.{matches}
use civic_pulse_24i3089_24i.Pattern.Decides.{
  reads, after, runs_on, empty-Decides, one-Decides, seq-Decides, either-Decides, group-Decides,
  text_end-Decides, word-Decides, many_one-Decides, started, matches-any,
}
use civic_pulse_24i3089_24i.Submission.{is_empty}
use civic_pulse_24i3089_24i.Submission.Expressions.{secret_filename}
use civic_pulse_24i3089_24i.Submission.Cluster.{is_secret}

-- `str.endswith`
unfoldable pub ends_with : Str → Str → Bool
unfolding ◌===◌
ends_with w [] = [] === w
ends_with w (c ∷ s) = (c ∷ s) === w || ends_with w s

-- `.env`, `.env.` and more, anything that ends in `.pem` or `.key`, and `id_rsa` and anything more.
abbrev pub is_named : Str → Bool
is_named s =
    (s === codes ".env" || (starts_with (codes ".env.") s && ltb 5 (length s)))
    || (ends_with (codes ".pem") s
        || (ends_with (codes ".key") s || starts_with (codes "id_rsa") s))

-- No line feed stands in the text.
abbrev pub IsLine : Str → Type 0
IsLine s = any (λ c. c == 10) s ≡ false

abbrev dot : ℕ → Bool
dot c = not (c == 10)

abbrev ends : Str → Bool
ends s = at_end s && true

end_line : (s : Str) → IsLine s → ends s ≡ is_empty s
end_line [] h = refl
end_line (c ∷ []) h = ground arith
end_line (c ∷ d ∷ s) h = refl

after_line :
    (k l : Str → Bool) (w s : Str)
    → ((t : Str) → IsLine t → k t ≡ l t)
    → IsLine s
    → after w k s ≡ after w l s
after_line k l [] s h e = h s e
after_line k l (c ∷ w) [] h e = refl
after_line k l (c ∷ w) (d ∷ s) h e = ground (arith, after_line k l w s h)

after_empty : (w s : Str) → after w is_empty s ≡ (s === w)
unfolding ◌===◌
after_empty [] [] = refl
after_empty [] (d ∷ s) = refl
after_empty (c ∷ w) [] = refl
after_empty (c ∷ w) (d ∷ s) = ap (◌&&◌ (d == c)) (after_empty w s)

eq_flip : (c d : ℕ) → (d == c) ≡ (c == d)
eq_flip c d = ground arith

after_true : (w s : Str) → after w (λ t. true) s ≡ starts_with w s
unfolding starts_with
after_true [] s = refl
after_true (c ∷ w) [] = refl
after_true (c ∷ w) (d ∷ s) = rw (eq_flip c d) (ap (◌&&◌ (c == d)) (after_true w s))

after_more :
    (w s : Str) → after w (λ t. not (is_empty t)) s ≡ (starts_with w s && ltb (length w) (length s))
unfolding starts_with
after_more [] [] = refl
after_more [] (d ∷ s) = ground arith
after_more (c ∷ w) [] = refl
after_more (c ∷ w) (d ∷ s) = ground (arith, after_more w s, eq_flip c d)

after_or :
    (k l : Str → Bool) (w s : Str) → after w (λ t. k t || l t) s ≡ (after w k s || after w l s)
after_or k l [] s = refl
after_or k l (c ∷ w) [] = refl
after_or k l (c ∷ w) (d ∷ s) = ground (arith, after_or k l w s)

runs_to_end : (s : Str) → IsLine s → runs_on dot ends s ≡ true
unfolding runs_on
runs_to_end [] h = refl
runs_to_end (c ∷ s) h = ground (arith, runs_to_end s)

runs_to_word : (w s : Str) → IsLine s → runs_on dot (after w ends) s ≡ ends_with w s
unfolding runs_on ends_with
runs_to_word w [] h = after_line ends is_empty w [] end_line h ∙ after_empty w []
runs_to_word w (c ∷ s) h =
    let here = after_line ends is_empty w (c ∷ s) end_line h ∙ after_empty w (c ∷ s) in
    let there : runs_on dot (after w ends) s ≡ ends_with w s = runs_to_word w s (ground arith) in
    rw (here, there) (ground arith)

-- A name, as the expression sees it.
shape : Str → Bool
shape s =
    after (codes ".env") (λ t. after (codes ".") (reads dot (runs_on dot ends)) t || ends t) s
    || (runs_on dot (after (codes ".pem") ends) s
        || (runs_on dot (after (codes ".key") ends) s
            || after (codes "id_rsa") (runs_on dot ends) s))

secret_filename-shape :
    (text : Str) → matches secret_filename text ≡ (shape text || after (codes "/") shape text)
unfolding secret_filename shape
secret_filename-shape text =
    matches-any secret_filename text
    ∙ started text (word-Decides (codes "/")) (
        seq-Decides
          (group-Decides (
            either-Decides
              (seq-Decides (word-Decides (codes ".env")) (
                either-Decides
                  (group-Decides (
                    seq-Decides (word-Decides (codes "."))
                      (seq-Decides one-Decides many_one-Decides)))
                  empty-Decides))
              (either-Decides (seq-Decides many_one-Decides (word-Decides (codes ".pem"))) (
                either-Decides (seq-Decides many_one-Decides (word-Decides (codes ".key")))
                  (seq-Decides (word-Decides (codes "id_rsa")) many_one-Decides)))))
          text_end-Decides)

or_comm : (a b : Bool) → (a || b) ≡ (b || a)
or_comm a b = ground arith

more_line : (s : Str) → IsLine s → reads dot (runs_on dot ends) s ≡ not (is_empty s)
more_line [] h = refl
more_line (c ∷ s) h = ground (arith, runs_to_end s)

env_line :
    (s : Str)
    → IsLine s
    → after (codes ".env") (λ t. after (codes ".") (reads dot (runs_on dot ends)) t || ends t) s
      ≡ (s === codes ".env" || (starts_with (codes ".env.") s && ltb 5 (length s)))
env_line s h =
    let longer =
      after_line (reads dot (runs_on dot ends)) (λ t. not (is_empty t)) (codes ".env.") s more_line
        h
      ∙ after_more (codes ".env.") s in
    let exact =
      after_line ends is_empty (codes ".env") s end_line h ∙ after_empty (codes ".env") s in
    after_or (after (codes ".") (reads dot (runs_on dot ends))) ends (codes ".env") s
    ∙ ap₂ (◌||◌) longer exact
    ∙ or_comm (starts_with (codes ".env.") s && ltb 5 (length s)) (s === codes ".env")

shape-is_named : (s : Str) → IsLine s → shape s ≡ is_named s
unfolding shape
shape-is_named s h = ap₂ (◌||◌) (env_line s h) (
    ap₂ (◌||◌) (runs_to_word (codes ".pem") s h) (
      ap₂ (◌||◌) (runs_to_word (codes ".key") s h) (
        after_line (runs_on dot ends) (λ t. true) (codes "id_rsa") s runs_to_end h
        ∙ after_true (codes "id_rsa") s)))

-- Of a line without a line feed, the check takes the name for a secret exactly where it is not empty
-- and not `.env.example`, and either the whole line or what follows its leading slash is `.env`, is
-- `.env.` and more, ends in `.pem` or `.key`, or begins with `id_rsa`.
pub is_secret-is_named :
    (line : Str)
    → any (λ c. c == 10) line ≡ false
    → is_secret line ≡ (
        not (is_empty line || line === codes ".env.example")
        && (is_named line || reads (λ c. c == 47) is_named line))
unfolding is_secret
is_secret-is_named line h = ap (◌&&◌ (not (is_empty line || line === codes ".env.example"))) (
    secret_filename-shape line
    ∙ ap₂ (◌||◌) (shape-is_named line h)
        (after_line shape is_named (codes "/") line shape-is_named h))

differ_long : (u w : Str) → length w < length u → (u === w) ≡ false
unfolding ◌===◌
differ_long [] w h = absurd (omega arith)
differ_long (c ∷ u) [] h = refl
differ_long (c ∷ u) (d ∷ w) h = ground (arith, differ_long u w)

-- What follows a long enough text decides how the whole ends.
ends_with-append : (w s v : Str) → length w ≤ length v → ends_with w (s ++ v) ≡ ends_with w v
unfolding ends_with
ends_with-append w [] v h = refl
ends_with-append w (c ∷ s) v h =
    rw (differ_long (c ∷ s ++ v) w (omega (arith, length-append s v))) (ends_with-append w s v h)

-- The expression is matched from the start of the line, so the check passes over an `.env` below the
-- root of the repository: a line `<directory>/.env` is taken for no secret, whatever the directory
-- is, unless its path begins with a dot, a slash or an `i`, or holds a line feed.
pub is_secret-nested :
    (c : ℕ) (directory : Str)
    → c ≢ 46
    → c ≢ 47
    → c ≢ 105
    → any (λ d. d == 10) (c ∷ directory) ≡ false
    → is_secret ((c ∷ directory) ++ codes "/.env") ≡ false
unfolding ◌===◌ starts_with ends_with
is_secret-nested c directory not_dot not_slash not_i h =
    let path = c ∷ directory in
    let whole : any (λ d. d == 10) (path ++ codes "/.env") ≡ false =
      any-append (λ d. d == 10) path (codes "/.env") ∙ ap (λ b. b || false) h in
    let pem = ends_with-append (codes ".pem") path (codes "/.env") (omega arith) in
    let key = ends_with-append (codes ".key") path (codes "/.env") (omega arith) in
    let dot_ : (c == 46) ≡ false = ground arith in
    let dot' : (46 == c) ≡ false = ground arith in
    let slash : (c == 47) ≡ false = ground arith in
    let i_ : (105 == c) ≡ false = ground arith in
    is_secret-is_named (path ++ codes "/.env") whole ∙ rw (pem, key, dot_, dot', slash, i_) refl
