-- ===== src/Ofed/Newest.antt =====
-- The latest kernel in the lines that rpm tells: the loop of `latestInstalledKernelCore` in
-- src/ofed.cpp.
use opencattus.Base.{
  ℕ, ◌+◌, String, Bool, true, Option, none, some, List, [], ◌∷◌, if◌then◌else◌, leb, Result, ok,
  err, ◌>>=◌, Error, runtime_error, says,
}
use opencattus.Base.Text.{is_empty, size}
use opencattus.Base.Search.{find, take, drop, ℤ, less, signed_value}

-- A kernel with its time of installation.
abbrev pub Kernel : Type 0
Kernel = ℤ × String

abbrev pub is_newer : ℤ → Option Kernel → Bool
is_newer time none = true
is_newer time (some (newest, name)) = less newest time

-- The time and the name in a line, where it has both.
abbrev pub cut_line : String → Option ℕ → Option (String × String)
cut_line line none = none
cut_line line (some separator) =
    if leb (size line) (separator + 1)
    then none
    else some (take separator line, drop (separator + 1) line)

abbrev pub parts_of : String → Option (String × String)
parts_of line = cut_line line (find " " line)

-- The newest kernel behind one of a name and a time.
abbrev pub newest_at : Option Kernel → String → Result ℤ → Result (Option Kernel)
newest_at newest name (err e) = err e
newest_at newest name (ok time) = ok (if is_newer time newest then some (time, name) else newest)

-- The newest kernel behind one more line.
abbrev pub keep_newest : Option Kernel → Option (String × String) → Result (Option Kernel)
keep_newest newest none = ok newest
keep_newest newest (some (time_text, name)) = newest_at newest name (signed_value 64 time_text)

-- The loop over the lines.
unfoldable pub newest_of : List String → Option Kernel → Result (Option Kernel)
newest_of [] newest = ok newest
newest_of (line ∷ lines) newest = keep_newest newest (parts_of line) >>= newest_of lines

abbrev pub no_kernel : Error
no_kernel = runtime_error (says "Could not determine the latest installed kernel-core package")

abbrev pub name_or_throw : Option Kernel → Result String
name_or_throw none = err no_kernel
name_or_throw (some (time, name)) = if is_empty name then err no_kernel else ok name

-- What `latestInstalledKernelCore` finds in the lines.
unfoldable pub latest_kernel : List String → Result String
unfolding newest_of
latest_kernel lines = newest_of lines none >>= name_or_throw
