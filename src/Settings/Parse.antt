-- ===== src/Settings/Parse.antt =====
-- The words and numbers of the configuration (config.go). `none` is an error.
use rupicola_go.Base.{
  ℕ, ◌+◌, ◌-◌, ◌*◌, Bytes, [], ◌∷◌, ◌||◌, Option, none, some, lit, ltb, leb, ◌==◌, bytes_eq,
  if◌then◌else◌, ◌≡◌, refl,
}
use rupicola_go.Base.Decimal.{print_nat}
use rupicola_go.Rpc.Decode.{to_lower}
use rupicola_go.Method.Def.{Encoding, utf8, base64, ParamType, string_type, int_type, bool_type}
use rupicola_go.Settings.Def.{
  Backend, backend_stdout, backend_syslog, backend_stderr, LogLevel, ll_off, ll_error, ll_warn,
  ll_info, ll_debug, BindType, http, https, unix,
}

unfoldable pub parse_backend : Bytes → Option Backend
unfolding to_lower bytes_eq
parse_backend word =
    let w = to_lower word in
    if w == lit "syslog"
    then some backend_syslog
    else if w == lit "stdout"
    then some backend_stdout
    else if w == lit "stderr" || w == []
    then some backend_stderr
    else none

unfoldable pub parse_loglevel : Bytes → Option LogLevel
unfolding to_lower bytes_eq
parse_loglevel word =
    let w = to_lower word in
    if w == lit "off"
    then some ll_off
    else if w == lit "trace" || w == lit "debug"
    then some ll_debug
    else if w == lit "info"
    then some ll_info
    else if w == lit "warn"
    then some ll_warn
    else if w == lit "error"
    then some ll_error
    else none

unfoldable pub parse_encoding : Bytes → Option Encoding
unfolding to_lower bytes_eq
parse_encoding word =
    let w = to_lower word in
    if w == lit "base64"
    then some base64
    else if w == lit "utf-8" || w == lit "utf8"
    then some utf8
    else none

unfoldable pub parse_bind_type : Bytes → Option BindType
unfolding to_lower bytes_eq
parse_bind_type word =
    let w = to_lower word in
    if w == lit "http"
    then some http
    else if w == lit "https"
    then some https
    else if w == lit "unix"
    then some unix
    else none

unfoldable pub parse_method_param_type : Bytes → Option ParamType
unfolding to_lower bytes_eq
parse_method_param_type word =
    let w = to_lower word in
    if w == lit "string"
    then some string_type
    else if w == lit "integer" || w == lit "int" || w == lit "number"
    then some int_type
    else if w == lit "bool" || w == lit "boolean"
    then some bool_type
    else none

-- strconv.ParseUint(s, 8, 9), of decimal digits: a digit over 7 and a value over 0777 are errors.
unfoldable pub parse_octal : Bytes → ℕ → Option ℕ
parse_octal [] n = some n
parse_octal (c ∷ s) n =
    let m = n * 8 + (c - b'0') in
    let rest = parse_octal s m in if leb b'8' c then none else if ltb 511 m then none else rest

-- shamefullFileModeFix, whose error is dropped: the mode is then left as it is.
unfoldable pub shamefull_file_mode_fix : ℕ → ℕ
unfolding parse_octal print_nat
shamefull_file_mode_fix mode = elim (parse_octal (print_nat mode) 0) [ none ↦ mode | some m ↦ m ]

modes :
    (shamefull_file_mode_fix 666 ≡ 438)
    × (shamefull_file_mode_fix 438 ≡ 438)
    × (shamefull_file_mode_fix 1000 ≡ 1000)
unfolding shamefull_file_mode_fix
modes = (refl, refl, refl)

words :
    (parse_backend (lit "SysLog") ≡ some backend_syslog)
    × (parse_loglevel (lit "trace") ≡ some ll_debug)
    × (parse_encoding (lit "base85") ≡ none)
unfolding parse_backend parse_loglevel parse_encoding
words = (refl, refl, refl)
