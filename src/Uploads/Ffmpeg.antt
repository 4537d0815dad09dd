-- ===== src/Uploads/Ffmpeg.antt =====
-- apps/uploads/ffmpeg.py: the calls of the media tools. What `subprocess.run` does with a command is
-- an argument. `_has_drawtext` remembers its answer for the process; the tools answer a command
-- the same way each time, so it is asked again here.
pub mod Steady
pub mod Failure
use backend_live_canvas.Prelude.{
  ℕ, ◌*◌, String, codes, concat, decimal, Bool, true, false, not, Option, none, some, List, [], ◌∷◌,
  ◌==◌, truthy, or_else, last_text, if◌then◌else◌,
}
use backend_live_canvas.Audit.Lower.{contains}
use backend_live_canvas.Core.Text.{strip}
use backend_live_canvas.Uploads.Attempt.{Attempt, done, rejected, tool_failed, interrupted}
use backend_live_canvas.Uploads.Pipeline.{Meta, Media}

-- The return code of a process: its exit status, or the signal that ended it.
pub data ReturnCode : Type 0 where
  exited : ℕ → ReturnCode
  killed : ℕ → ReturnCode

abbrev pub is_zero : ReturnCode → Bool
is_zero (exited n) = n == 0
is_zero (killed n) = false

unfoldable pub code_text : ReturnCode → String
code_text (exited n) = decimal n
code_text (killed n) = concat "-" (decimal n)

-- `subprocess.CompletedProcess`
pub record CompletedProcess : Type 0 where
  pub returncode : ReturnCode
  pub stdout : String
  pub stderr : String

-- What `subprocess.run` ends in.
pub data Ran : Type 0 where
  completed : CompletedProcess → Ran
  -- `FileNotFoundError`
  not_installed : Ran
  -- `subprocess.TimeoutExpired`
  timed_out : Ran

-- `subprocess.run` on a command and a timeout in seconds.
abbrev pub Tools : Type 0
Tools = List String → ℕ → Ran

abbrev pub probe_timeout : ℕ
probe_timeout = 60

abbrev pub transcode_timeout : ℕ
transcode_timeout = 1800

-- `cmd[0]`
abbrev pub program_of : List String → String
program_of [] = ""
program_of (c ∷ _) = c

-- `(proc.stderr or "").strip()[-500:]`
unfoldable pub tail_of : String → String
tail_of stderr = last_text 500 (strip stderr)

-- `_run`, from the end of the process on.
unfoldable pub concluded : List String → ℕ → Ran → Attempt CompletedProcess
unfolding tail_of code_text
concluded cmd timeout (completed proc) =
    if is_zero proc.returncode
    then done proc
    else tool_failed (
        concat (program_of cmd) (
          concat " failed (rc="
            (concat (code_text proc.returncode) (concat "): " (tail_of proc.stderr)))))
concluded cmd timeout not_installed =
    tool_failed (concat (program_of cmd) " binary not found on this host")
concluded cmd timeout timed_out =
    tool_failed
      (concat (program_of cmd) (concat " timed out after " (concat (decimal timeout) "s")))

-- `_run`
unfoldable pub run : Tools → List String → ℕ → Attempt CompletedProcess
unfolding concluded
run tools cmd timeout = concluded cmd timeout (tools cmd timeout)

-- ---------------------------------------------------------------- the probe

-- A value of a report: null, a flag, a number or a text.
pub data Value : Type 0 where
  null : Value
  flag : Bool → Value
  number : ℕ → Value
  word : String → Value

-- The members of a stream, where they are given.
pub record Stream : Type 0 where
  pub width : Option Value
  pub height : Option Value

-- What `json.loads` reads: the streams, and the duration of the format.
pub record Report : Type 0 where
  pub streams : List Stream
  pub duration : Option Value

-- The parsers of the standard library; none where one raises. A duration is in millionths.
pub record Readers : Type 0 where
  pub loads : String → Option Report
  pub int_of_text : String → Option ℕ
  pub float_of_text : String → Option ℕ

abbrev is_given : Option Value → Bool
is_given none = false
is_given (some null) = false
is_given (some (flag b)) = b
is_given (some (number n)) = not (n == 0)
is_given (some (word s)) = truthy s

-- `int(value)`; a member that is missing raises as well.
unfoldable pub to_int : Readers → Option Value → Option ℕ
to_int readers none = none
to_int readers (some null) = none
to_int readers (some (flag true)) = some 1
to_int readers (some (flag false)) = some 0
to_int readers (some (number n)) = some n
to_int readers (some (word s)) = readers.int_of_text s

-- `float(value)`, with the default 0.0.
unfoldable pub to_float : Readers → Option Value → Option ℕ
to_float readers none = some 0
to_float readers (some null) = none
to_float readers (some (flag true)) = some 1000000
to_float readers (some (flag false)) = some 0
to_float readers (some (number n)) = some (n * 1000000)
to_float readers (some (word s)) = readers.float_of_text s

abbrev unreadable : Attempt Meta
unreadable = interrupted "the report cannot be read"

abbrev meta_of : Option ℕ → Option ℕ → Option ℕ → Attempt Meta
meta_of (some w) (some h) (some d) = done (record { width = w; height = h; duration = d })
meta_of _ _ _ = unreadable

-- `probe`, behind its parse of the report.
unfoldable pub read_report : Readers → Option Report → Attempt Meta
unfolding to_int to_float
read_report readers none = unreadable
read_report readers (some report) = elim report.streams [
  | [] ↦ tool_failed "no video stream found"
  | s ∷ _ ↦
      if is_given s.width
      then meta_of (to_int readers s.width) (to_int readers s.height)
          (to_float readers report.duration)
      else tool_failed "no video stream found"
]

abbrev then_attempt : {A B : Type 0} → Attempt A → (A → Attempt B) → Attempt B
then_attempt (done a) f = f a
then_attempt (rejected m) f = rejected m
then_attempt (tool_failed m) f = tool_failed m
then_attempt (interrupted m) f = interrupted m

abbrev pub probe_command : String → List String
probe_command path =
    "ffprobe" ∷ "-v" ∷ "error" ∷ "-select_streams" ∷ "v:0" ∷ "-show_entries"
    ∷ "stream=width,height:format=duration" ∷ "-print_format" ∷ "json" ∷ path ∷ []

-- `probe`
unfoldable pub probe : Tools → Readers → String → Attempt Meta
unfolding run read_report
probe tools readers path =
    then_attempt (run tools (probe_command path) probe_timeout)
      (λ proc. read_report readers (readers.loads (or_else proc.stdout "{}")))

-- ---------------------------------------------------------------- the transcodings

abbrev pub ignored : Attempt CompletedProcess → Attempt (Unit {0})
ignored r = then_attempt r (λ _. done tt)

abbrev pub master_command : String → String → List String
master_command src dst =
    "ffmpeg" ∷ "-y" ∷ "-i" ∷ src ∷ "-map" ∷ "0:v:0" ∷ "-c:v" ∷ "libx264" ∷ "-profile:v" ∷ "high"
    ∷ "-preset" ∷ "medium" ∷ "-crf" ∷ "20" ∷ "-pix_fmt" ∷ "yuv420p" ∷ "-movflags" ∷ "+faststart"
    ∷ "-an" ∷ dst ∷ []

-- `normalize_master`
unfoldable pub normalize_master : Tools → String → String → Attempt (Unit {0})
unfolding run
normalize_master tools src dst = ignored (run tools (master_command src dst) transcode_timeout)

abbrev pub thumbnail_command : String → String → List String
thumbnail_command src dst =
    "ffmpeg" ∷ "-y" ∷ "-ss" ∷ "1" ∷ "-i" ∷ src ∷ "-vf" ∷ "scale='min(1080,iw)':-2" ∷ "-frames:v"
    ∷ "1" ∷ "-q:v" ∷ "3" ∷ dst ∷ []

-- `extract_thumbnail`
unfoldable pub extract_thumbnail : Tools → String → String → Attempt (Unit {0})
unfolding run
extract_thumbnail tools src dst = ignored (run tools (thumbnail_command src dst) probe_timeout)

abbrev lists_drawtext : Attempt CompletedProcess → Bool
lists_drawtext (done proc) = contains (codes "drawtext") (codes proc.stdout)
lists_drawtext _ = false

-- `_has_drawtext`
unfoldable pub has_drawtext : Tools → Bool
unfolding run contains
has_drawtext tools =
    lists_drawtext (run tools ("ffmpeg" ∷ "-hide_banner" ∷ "-filters" ∷ []) probe_timeout)

-- `_watermark_filter`
unfoldable pub watermark_filter : Tools → String
unfolding has_drawtext
watermark_filter tools =
    if has_drawtext tools
    then "drawtext=text='LiveCanvas':fontcolor=white@0.35:fontsize=h/20:x=w-tw-10:y=h-th-10"
    else "drawbox=x=iw-iw/4-10:y=ih-ih/30-10:w=iw/4:h=ih/30:color=white@0.35:t=fill"

abbrev pub preview_command : String → String → String → List String
preview_command filters src dst =
    "ffmpeg" ∷ "-y" ∷ "-i" ∷ src ∷ "-map" ∷ "0:v:0" ∷ "-t" ∷ "10" ∷ "-vf" ∷ filters ∷ "-c:v"
    ∷ "libx264" ∷ "-preset" ∷ "veryfast" ∷ "-crf" ∷ "28" ∷ "-pix_fmt" ∷ "yuv420p" ∷ "-movflags"
    ∷ "+faststart" ∷ "-an" ∷ dst ∷ []

-- The filters of a preview.
abbrev pub preview_filters : Tools → String
preview_filters tools =
    concat "scale='if(gt(iw,ih),-2,720)':'if(gt(iw,ih),720,-2)'," (watermark_filter tools)

-- `render_preview`
unfoldable pub render_preview : Tools → String → String → Attempt (Unit {0})
unfolding run watermark_filter
render_preview tools src dst =
    ignored (run tools (preview_command (preview_filters tools) src dst) transcode_timeout)

-- The tools in the directory `tmp` of one attempt (apps/uploads/tasks.py): what the pipeline calls.
unfoldable pub with_tools : Tools → Readers → String → Media → Media
unfolding probe normalize_master extract_thumbnail render_preview
with_tools tools readers tmp m =
    let src = concat tmp "/source" in
    record m {
      probe = probe tools readers src;
      normalize_master = normalize_master tools src (concat tmp "/master.mp4");
      extract_thumbnail = extract_thumbnail tools src (concat tmp "/thumb.jpg");
      render_preview = render_preview tools src (concat tmp "/preview.mp4");
    }
