-- ===== src/Logfmt/Tests.antt =====
-- A line with a value that tries to forge a field (logfmt.py).
use basecradle_router.Base.{none, get, string_discrete, ℕ, ◌≡◌, refl, true, List, [], ◌∷◌, codes}
use basecradle_router.Logfmt.{has, Value, none_value, boolean, text, log_fields, render_text, paint}
use basecradle_router.Logfmt.Rendered.{all_plain, render_text-all_plain}
use basecradle_router.Logfmt.Reader.{read_line, meant, AreKeys, read_line-log_fields}
use basecradle_router.Logfmt.Paint.{terminal, written, terminal-paint}

abbrev fields : List (List ℕ × Value)
fields =
    (codes "agent", text (codes "nova"))
    ∷ (codes "error", text (codes "said \" stage=wake outcome=failed"))
    ∷ (codes "slug", none_value)
    ∷ (codes "ok", boolean true)
    ∷ []

fields-AreKeys : AreKeys fields
unfolding has
fields-AreKeys =
    ((refl, refl, refl), ((refl, refl, refl), ((refl, refl, refl), ((refl, refl, refl), tt))))

read_line-log_fields_example : read_line (log_fields fields) ≡ meant fields
read_line-log_fields_example = read_line-log_fields fields fields-AreKeys

render_text-all_plain_example : all_plain (render_text (codes "a\tb")) ≡ true
render_text-all_plain_example = render_text-all_plain (codes "a\tb")

terminal-paint_example :
    terminal none [] (paint "outcome=ok") ≡ (written (codes "[32") (codes "outcome=ok"), [])
unfolding has get string_discrete
terminal-paint_example = terminal-paint "outcome=ok" refl
