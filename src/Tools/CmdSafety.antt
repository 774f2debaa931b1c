-- ===== src/Tools/CmdSafety.antt =====
-- tools/cmdsafety.go: which shell commands an agent may run.
pub mod Disjoint
pub mod Segments
use squad.Base.{
  ℕ, String, List, [], ◌∷◌, ◌++◌, map, Bool, true, false, ◌&&◌, ◌||◌, Option, none, some, ◌==◌,
  if◌then◌else◌,
}
use squad.Base.Text.{codes}
use squad.Base.Chars.{Chars, has_prefix, same_text, trim_space}

abbrev pub safe_commands : List Chars
safe_commands = map codes (
    "cat " ∷ "cat\t" ∷ "echo " ∷ "env" ∷ "head " ∷ "id" ∷ "ls " ∷ "ls\n" ∷ "ls\t" ∷ "pwd" ∷ "tail "
    ∷ "wc " ∷ "whoami" ∷ "which " ∷ "file " ∷ "stat " ∷ "df " ∷ "du " ∷ "date" ∷ "uname"
    ∷ "hostname" ∷ "printenv" ∷ "git status" ∷ "git log" ∷ "git diff" ∷ "git show" ∷ "git blame"
    ∷ "git branch" ∷ "git tag" ∷ "git remote" ∷ "git rev-parse" ∷ "git ls-files" ∷ "git ls-tree"
    ∷ "git describe" ∷ "git stash list" ∷ "git config --get" ∷ "git config --list" ∷ "go version"
    ∷ "go env" ∷ "go list" ∷ "go doc" ∷ "go vet" ∷ "python --version" ∷ "python3 --version"
    ∷ "pip list" ∷ "pip3 list" ∷ "pip show" ∷ "pip3 show" ∷ "node --version" ∷ "npm list" ∷ "npm ls"
    ∷ "npm --version" ∷ [])

abbrev pub blocked_commands : List Chars
blocked_commands = map codes (
    "rm -rf /" ∷ "rm -rf /*" ∷ "mkfs" ∷ "dd if=" ∷ ":(){" ∷ "sudo " ∷ "su " ∷ "doas " ∷ "nmap "
    ∷ "masscan " ∷ "zmap " ∷ "curl -X POST" ∷ "wget --post" ∷ "shutdown" ∷ "reboot" ∷ "halt"
    ∷ "init 0" ∷ "init 6" ∷ "systemctl stop" ∷ "systemctl disable" ∷ "launchctl unload" ∷ "passwd"
    ∷ "chpasswd" ∷ "git push --force" ∷ "git push -f " ∷ "git reset --hard" ∷ "git clean -fd"
    ∷ "git clean -fx" ∷ "pip install " ∷ "pip3 install " ∷ "npm install -g" ∷ "npm i -g"
    ∷ "gem install " ∷ "cargo install " ∷ "go install " ∷ "apt install" ∷ "apt-get install"
    ∷ "yum install" ∷ "dnf install" ∷ "brew install" ∷ "pacman -S" ∷ [])

abbrev pub read_like_binaries : List Chars
read_like_binaries = map codes (
    "cat" ∷ "head" ∷ "tail" ∷ "less" ∷ "more" ∷ "bat" ∷ "grep" ∷ "rg" ∷ "ag" ∷ "ack" ∷ "sed" ∷ "awk"
    ∷ "find" ∷ "fd" ∷ "strings" ∷ "xxd" ∷ "hexdump" ∷ "od" ∷ "wc" ∷ [])

-- The commands that are safe with no argument.
abbrev pub bare_commands : List Chars
bare_commands =
    map codes
      ("ls" ∷ "env" ∷ "pwd" ∷ "whoami" ∷ "date" ∷ "id" ∷ "uname" ∷ "hostname" ∷ "printenv" ∷ [])

unfoldable pub any_prefix : List Chars → Chars → Bool
unfolding has_prefix
any_prefix [] s = false
any_prefix (p ∷ ps) s = has_prefix s p || any_prefix ps s

unfoldable pub any_same : List Chars → Chars → Bool
unfolding same_text
any_same [] s = false
any_same (p ∷ ps) s = same_text s p || any_same ps s

unfoldable pub is_safe_command : Chars → Bool
is_safe_command cmd =
    let trimmed = trim_space cmd in
    any_prefix safe_commands trimmed || any_same bare_commands trimmed

-- `strings.NewReplacer("&&", ";", "||", ";", "|", ";")`
unfoldable pub normalise : Chars → Chars
normalise [] = []
normalise (c ∷ []) = (if c == b'|' then b';' else c) ∷ []
normalise (c ∷ d ∷ s) =
    let both = b';' ∷ normalise s in
    let one = (if c == b'|' then b';' else c) ∷ normalise (d ∷ s) in
    if (c == b'&' && d == b'&') || (c == b'|' && d == b'|') then both else one

-- `strings.Split` at a semicolon; `cur` is the segment so far.
unfoldable pub segments : Chars → Chars → List Chars
segments cur [] = cur ∷ []
segments cur (c ∷ s) =
    let cut = cur ∷ segments [] s in
    let go = segments (cur ++ c ∷ []) s in if c == b';' then cut else go

unfoldable pub is_read_binary : List Chars → Chars → Bool
unfolding has_prefix same_text
is_read_binary [] seg = false
is_read_binary (bin ∷ bins) seg =
    same_text seg bin
    || has_prefix seg (bin ++ b' ' ∷ [])
    || has_prefix seg (bin ++ b'\t' ∷ [])
    || is_read_binary bins seg

-- The body of the loop over the segments.
unfoldable pub is_read_segment : Chars → Bool
is_read_segment segment =
    let seg = trim_space segment in
    if has_prefix seg (codes "cd ")
    then false
    else is_read_binary read_like_binaries seg || any_prefix safe_commands seg

unfoldable pub any_read : List Chars → Bool
any_read [] = false
any_read (s ∷ ss) = is_read_segment s || any_read ss

unfoldable pub contains_read_command : Chars → Bool
contains_read_command cmd = any_read (segments [] (normalise cmd))

-- The first prefix that matches goes into the message.
unfoldable pub first_prefix : List Chars → Chars → Option Chars
unfolding has_prefix
first_prefix [] s = none
first_prefix (p ∷ ps) s = if has_prefix s p then some p else first_prefix ps s

-- `none`: the command may run.
unfoldable pub is_blocked_command : Chars → Option Chars
is_blocked_command cmd = first_prefix blocked_commands (trim_space cmd)
