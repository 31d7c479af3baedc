-- ===== src/Logging/Message/Delivery/Runs.antt =====
-- logging.cc, LogMessage::Flush: the log files after any messages.
use openmi_base.Base.{
  ℕ, ◌+◌, ◌-◌, ◌^◌, ◌<◌, ◌≤◌, ◌==◌, ◌≡◌, ◌≢◌, refl, ap, ◌∙◌, inl, inr, Bool, true, false, List, [],
  ◌∷◌, ◌++◌, none, some, length, length-append, ltb, Bool-cases, bind_some, if◌then◌else◌, arith,
}
use openmi_base.Base.Dict.{Text}
use openmi_base.Base.Format.{snprintf_ends}
use openmi_base.Calendar.{DateInfo, beijing}
use openmi_base.Logging.{LogSeverity, info, severity_index}
use openmi_base.Logging.FileHead.{is_empty_text}
use openmi_base.Logging.LogFile.Rolls.{human_date_log_total}
use openmi_base.Logging.Message.{
  Globals, Answers, last_byte, final_text, send, warn_line, dispatch, warn_long,
}
use openmi_base.Logging.Buffer.{max_log_message_len}
use openmi_base.Logging.Message.Delivery.{IsReady, Delivered}
use openmi_base.Logging.Message.Delivery.Loop.{deliver_lem}
use openmi_base.Logging.Routing.{added_from, severity_index_small}

last_byte-some : (b : ℕ) (bs : List ℕ) → (c : ℕ) × (last_byte (b ∷ bs) ≡ some c)
unfolding last_byte
last_byte-some b [] = (b, refl)
last_byte-some b (c ∷ bs) = last_byte-some c bs

-- The bytes that a text is logged as; no text is logged as none.
abbrev pub logged : List ℕ → List ℕ
logged text = elim (final_text text) [ some t ↦ t | none ↦ [] ]

ended_small :
    (text : List ℕ) (last : Bool)
    → length (if last then text else text ++ 10 ∷ []) ≤ length text + 1
ended_small text true = omega arith
ended_small text false = omega (arith, length-append text (10 ∷ []))

final_text_lem :
    (text : List ℕ)
    → 0 < length text
    → (t : List ℕ) × (final_text text ≡ some t) × (length t ≤ length text + 1)
unfolding final_text
final_text_lem [] h = absurd (omega (arith, h))
final_text_lem (b ∷ bs) h =
    let (c, e) = last_byte-some b bs in
    (if c == 10 then b ∷ bs else b ∷ bs ++ 10 ∷ [], bind_some _ e, ended_small (b ∷ bs) (c == 10))

pub final_text-logged :
    (text : List ℕ)
    → 0 < length text
    → (final_text text ≡ some (logged text)) × (length (logged text) ≤ length text + 1)
final_text-logged text h =
    let (t, e, small) = final_text_lem text h in (rw (logged, e) refl, rw (logged, e) small)

-- What Flush does with the globals.
module _ (ans : Answers) (date : DateInfo) (msg : List ℕ) (severity : LogSeverity) (dir : Text)
    (ready : IsReady dir ans) (int : length msg < 2 ^ 31) (named : is_empty_text dir ≡ false) where
  abbrev pub given_to : (ℕ → List ℕ) → ℕ → List ℕ
  given_to a = added_from (severity_index severity + 1) 0 msg a

  -- The last step of the block, where the directory has a name.
  abbrev told : Globals → Globals
  told g = if g.also_to_stderr then send msg info g else g

  told-Delivered : (g : Globals) (a : ℕ → List ℕ) → Delivered dir g a → Delivered dir (told g) a
  told-Delivered g a h = either g.also_to_stderr
    where
      either : (b : Bool) → Delivered dir (if b then send msg info g else g) a
      either false = h
      either true = record {
        dir_is = h.dir_is;
        program = h.program;
        program_is = h.program_is;
        sync = h.sync;
        short = h.short;
        dests = h.dests;
      }

  pub dispatch_lem :
      (g : Globals) (a : ℕ → List ℕ)
      → Delivered dir g a
      → (g' : Globals) × (dispatch ans date msg severity g ≡ some g')
        × Delivered dir g' (given_to a)
  unfolding dispatch
  dispatch_lem g a h =
      let rounds : severity_index severity + 1 + 0 ≤ 3 =
        omega (arith, severity_index_small severity) in
      let (g1, e, h1) =
        deliver_lem ans date msg dir ready int (severity_index severity + 1) 0 g a rounds h in
      let open0 : is_empty_text g.log_dir ≡ false = ap is_empty_text h.dir_is ∙ named in
      let open1 : is_empty_text g1.log_dir ≡ false = ap is_empty_text h1.dir_is ∙ named in
      let called : dispatch ans date msg severity g ≡ some (told g1) =
        rw (dispatch, h.sync, h.program_is, open0, e, open1) refl in
      (told g1, called, told-Delivered g1 (given_to a) h1)

  pub warn_long_lem :
      (g : Globals) (a : ℕ → List ℕ)
      → beijing ans.warn_tv.tv_sec ≢ none
      → Delivered dir g a
      → (g' : Globals) × (warn_long ans date msg severity g ≡ some g') × Delivered dir g' a
  unfolding warn_long
  warn_long_lem g a clock h = elim (Bool-cases (ltb (max_log_message_len - 10) (length msg))) [
    | inr small ↦ (g, rw small refl, h)
    | inl long ↦
        let (r, e) = human_date_log_total g.process.month_table ans.warn_tv date clock in
        let (line, i) = snprintf_ends 100 (warn_line r.1) in
        (
          send line severity (record g { process = record g.process { month_table = r.0 } }),
          rw (long, e, i) refl,
          record {
            dir_is = h.dir_is;
            program = h.program;
            program_is = h.program_is;
            sync = h.sync;
            short = h.short;
            dests = h.dests;
          },
        )
  ]
