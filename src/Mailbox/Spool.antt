-- ===== src/Mailbox/Spool.antt =====
-- internal/mailbox/spool.go and cursors.go: the Maildir of an agent and its resume pointers.
pub mod Names
pub mod Deliver
pub mod Ack
use Prim.Native.Char.{code}
use Prim.Native.String.{◌++◌ as append}
use botfam.Base.{
  ℕ, zero, suc, ◌-◌, String, Bool, false, not, ◌&&◌, ◌||◌, Option, none, some, List, [], ◌∷◌, ◌++◌,
  ◌==◌, leb, nat_eq, if◌then◌else◌, engine, message, Result, ok, err, Exec, ◌>>◌, find, filter,
  is_some, or_default,
}
use botfam.Base.Text.{format_int}
use botfam.Base.Runes.{runes}
use Prim.Native.String.{compare}
use text.Mathlib.Text.{is_lt}
use botfam.Mailbox.Message.{Times, Message, encode}
use botfam.Mailbox.Parse.{parse_message}

pub data Box : Type 0 where
  tmp_box : Box
  new_box : Box
  cur_box : Box

-- A file: its name and what it holds.
abbrev pub File : Type 0
File = String × String

-- Cursors; the forge's watermark in Unix seconds from 1970 on.
pub record Cursors : Type 0 where
  pub irc_offset : ℕ
  pub forge_watermark : ℕ

-- The directory of a spool, and what its process keeps. `cursors` is cursors.json: none before it is
-- first written. `faults` says of each coming call of the file system whether it fails; after its
-- end none fails. `counter` is deliveryCounter; `nudged` holds the messages that OnDeliver was called
-- with, if it is set (`on_deliver`).
pub record Spool (Time : Type 0) : Type 0 where
  pub tmp : List File
  pub new : List File
  pub cur : List File
  pub cursors : Option Cursors
  pub faults : List Bool
  pub counter : ℕ
  pub on_deliver : Bool
  pub nudged : List (Message Time)

-- Entry, without the directory of the spool, which is the same for all.
pub record Entry : Type 0 where
  pub name : String
  pub box : Box

-- What the process and its host say: the clock at each delivery, the process's id and the name of
-- the host, none if it cannot be determined.
pub record Process : Type 0 where
  pub nanos : ℕ → ℕ
  pub pid : ℕ
  pub hostname : Option String

-- Does the next call fail?
unfoldable pub fails : List Bool → Bool
fails [] = false
fails (b ∷ bs) = b

unfoldable pub spent : List Bool → List Bool
spent [] = []
spent (b ∷ bs) = bs

unfoldable pub without : String → List File → List File
unfolding filter
without name files = filter (λ f. not (f.0 == name)) files

unfoldable pub lookup : String → List File → Option File
unfolding find
lookup name files = find (λ f. f.0 == name) files

is_host_char : ℕ → Bool
is_host_char r =
    (leb 97 r && leb r 122) || (leb 65 r && leb r 90) || (leb 48 r && leb r 57) || nat_eq r 45

host_chars : String → String
unfolding is_host_char
host_chars String.[] = ""
host_chars (String.◌∷◌ c s) = String.◌∷◌ (if is_host_char (code c) then c else "_") (host_chars s)

-- fileHost; a host name that is not empty leaves a name that is not empty
unfoldable pub file_host : Option String → String
unfolding host_chars
file_host none = "localhost"
file_host (some h) = if h == "" then "localhost" else host_chars h

unfoldable pub zeros : ℕ → String
zeros zero = ""
zeros (suc n) = String.◌∷◌ "0" (zeros n)

-- the verb %0⟨width⟩d of a number that is not negative
unfoldable pub padded : ℕ → ℕ → String
unfolding zeros runes format_int
padded width n = append (zeros (width - runes (format_int n))) (format_int n)

-- uniqueName at the n-th delivery of the process
unfoldable pub unique_name : Process → ℕ → String
unfolding padded format_int file_host
unique_name p n = append (padded 20 (p.nanos n)) (
    append "." (
      append (padded 12 n)
        (append "." (append (format_int p.pid) (append "." (file_host p.hostname))))))

-- sort.Slice by name
insert_entry : Entry → List Entry → List Entry
insert_entry x [] = x ∷ []
insert_entry x (y ∷ ys) =
    let rest = insert_entry x ys in if is_lt (compare y.name x.name) then y ∷ rest else x ∷ y ∷ ys

sort_entries : List Entry → List Entry
unfolding insert_entry
sort_entries [] = []
sort_entries (x ∷ xs) = insert_entry x (sort_entries xs)

-- strings.HasPrefix(name, ".")
is_dotfile : String → Bool
is_dotfile String.[] = false
is_dotfile (String.◌∷◌ c s) = nat_eq (code c) 46

entries_of : Box → List File → List Entry
unfolding is_dotfile
entries_of box [] = []
entries_of box (f ∷ fs) =
    let rest = entries_of box fs in
    if is_dotfile f.0 then rest else record { name = f.0; box = box } ∷ rest

-- json.Marshal of Cursors
cursors_json : Cursors → String
unfolding format_int
cursors_json c = append "{\"irc_offset\":" (
    append (format_int c.irc_offset)
      (append ",\"forge_watermark\":" (append (format_int c.forge_watermark) "}")))

module _ {Time : Type 0} where
  unfoldable pub spend : Spool Time → Spool Time
  unfolding spent
  spend s = record s { faults = spent s.faults }

  abbrev box_files : Box → Spool Time → List File
  box_files tmp_box s = s.tmp
  box_files new_box s = s.new
  box_files cur_box s = s.cur

  -- os.WriteFile in tmp/
  unfoldable pub write_tmp : File → Exec (Spool Time) Unit
  unfolding fails spend without
  write_tmp f s =
      if fails s.faults
      then (err engine, spend s)
      else (ok tt, record (spend s) { tmp = without f.0 s.tmp ++ f ∷ [] })

  -- os.Remove in tmp/
  unfoldable pub remove_tmp : String → Exec (Spool Time) Unit
  unfolding fails spend without
  remove_tmp name s =
      if fails s.faults
      then (err engine, spend s)
      else (ok tt, record (spend s) { tmp = without name s.tmp })

  move_to_new : String → Option File → Exec (Spool Time) Unit
  unfolding without
  move_to_new name none s = (err engine, s)
  move_to_new name (some f) s =
      (ok tt, record s { tmp = without name s.tmp; new = without name s.new ++ f ∷ [] })

  -- os.Rename from tmp/ into new/
  unfoldable pub publish : String → Exec (Spool Time) Unit
  unfolding fails spend lookup move_to_new
  publish name s =
      if fails s.faults
      then (err engine, spend s)
      else move_to_new name (lookup name s.tmp) (spend s)

  move_to_cur : String → Option File → Exec (Spool Time) Unit
  unfolding without
  move_to_cur name none s = (err engine, s)
  move_to_cur name (some f) s =
      (ok tt, record s { new = without name s.new; cur = without name s.cur ++ f ∷ [] })

  -- os.Rename from new/ into cur/
  unfoldable pub retire : String → Exec (Spool Time) Unit
  unfolding fails spend lookup move_to_cur
  retire name s =
      if fails s.faults
      then (err engine, spend s)
      else move_to_cur name (lookup name s.new) (spend s)

  -- the rename of Deliver, and the best-effort cleanup when it fails
  after_publish : String → Result (Unit {0}) → Exec (Spool Time) Unit
  unfolding remove_tmp
  after_publish name (ok u) s = (ok tt, s)
  after_publish name (err e) s = (err e, (remove_tmp name s).1)

  unfoldable pub nudge : Message Time → Spool Time → Spool Time
  nudge m s = if s.on_deliver then record s { nudged = s.nudged ++ m ∷ [] } else s

  -- Spool.Deliver
  unfoldable pub deliver : Times Time → Process → Message Time → Exec (Spool Time) String
  unfolding unique_name encode write_tmp publish after_publish nudge
  deliver times p m s =
      let name = unique_name p (suc s.counter) in
      let s' : Spool Time = record s { counter = suc s.counter } in
      (write_tmp (name, encode times m)
          >> (λ t. let (r, t') = publish name t in after_publish name r t')
          >> (λ t. (ok name, nudge m t)))
        s'

  -- Spool.ListNew and ListCur
  unfoldable pub list_box : Box → Exec (Spool Time) (List Entry)
  unfolding fails spend entries_of sort_entries
  list_box box s =
      if fails s.faults
      then (err engine, spend s)
      else (ok (sort_entries (entries_of box (box_files box s))), spend s)

  read_file : Times Time → Option File → Result (Message Time)
  unfolding parse_message
  read_file times none = err engine
  read_file times (some f) = parse_message times f.1

  -- Spool.Read
  unfoldable pub read : Times Time → Entry → Exec (Spool Time) (Message Time)
  unfolding fails spend lookup read_file
  read times e s =
      if fails s.faults
      then (err engine, spend s)
      else (read_file times (lookup e.name (box_files e.box s)), spend s)

  -- Spool.Ack
  unfoldable pub ack : Entry → Exec (Spool Time) Unit
  unfolding retire
  ack e s = elim e.box [
    | new_box ↦ retire e.name s
    | _ ↦ (err (message "mailbox: Ack requires a new/ entry"), s)
  ]

  -- Spool.HasCursors
  unfoldable pub has_cursors : Exec (Spool Time) Bool
  unfolding fails spend
  has_cursors s = (ok (not (fails s.faults) && is_some s.cursors), spend s)

  -- Spool.ReadCursors
  unfoldable pub read_cursors : Exec (Spool Time) Cursors
  unfolding fails spend
  read_cursors s =
      if fails s.faults
      then (err engine, spend s)
      else (ok (or_default (record { irc_offset = 0; forge_watermark = 0 }) s.cursors), spend s)

  -- Spool.WriteCursors, whose file in tmp/ takes a name of its own
  unfoldable pub write_cursors : Process → Cursors → Exec (Spool Time) Unit
  unfolding unique_name write_tmp remove_tmp cursors_json fails spend without
  write_cursors p c s =
      let name = append "cursors." (unique_name p (suc s.counter)) in
      let s' : Spool Time = record s { counter = suc s.counter } in
      (write_tmp (name, cursors_json c) >> (λ t.
          if fails t.faults
          then (err engine, (remove_tmp name (spend t)).1)
          else (ok tt, record (spend t) { tmp = without name t.tmp; cursors = some c })))
        s'
