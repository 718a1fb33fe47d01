-- ===== src/Fs/Laws.antt =====
-- What the file operations do to one another.
use libgitops.Prelude.{◌+◌, true, false, ◌≡◌, ◌≢◌, arith, if◌then◌else◌}
use libgitops.Prelude.Text.{Str, str_eq, str_eq_iff, text_eq}
use libgitops.Prelude.Dict.{lookup-insert, lookup-erase}
use libgitops.Prelude.Outcome.{ok, err, os_not_exist}
use libgitops.Fs.{Fs, file, fails, stat, read_file, put_file, write_file, remove, file_exists}

stat-put_file :
    (fs : Fs) (p q content : Str)
    → fails fs.failing p ≡ false
    → stat (put_file fs p content) q
      ≡ (if str_eq p q then ok (file content (fs.clock + 1)) else stat fs q)
unfolding stat put_file
stat-put_file fs p q content h =
    ground (arith, lookup-insert q p (file content (fs.clock + 1)) fs.nodes, str_eq_iff p q)

-- A write that returns no error has put the file there.
pub write_file-eq_ok :
    (fs fs' : Fs) (p content : Str)
    → write_file fs p content ≡ (fs', ok tt)
    → (fs' ≡ put_file fs p content) × (fails fs.failing p ≡ false)
unfolding write_file
write_file-eq_ok fs fs' p content h = ground arith

-- A write that fails has changed nothing.
pub write_file-unchanged :
    (fs : Fs) (p content : Str)
    → (write_file fs p content).1 ≢ ok tt
    → (write_file fs p content).0 ≡ fs
unfolding write_file
write_file-unchanged fs p content h = ground arith

-- Reading what was written.
pub read_file-write_file :
    (fs fs' : Fs) (p content : Str)
    → write_file fs p content ≡ (fs', ok tt)
    → read_file fs' p ≡ ok content
unfolding read_file
read_file-write_file fs fs' p content h =
    ground
      (arith, write_file-eq_ok fs fs' p content h, stat-put_file fs p p content, str_eq_iff p p)

pub file_exists-write_file :
    (fs fs' : Fs) (p content : Str)
    → write_file fs p content ≡ (fs', ok tt)
    → file_exists fs' p ≡ ok true
unfolding file_exists
file_exists-write_file fs fs' p content h =
    ground
      (arith, write_file-eq_ok fs fs' p content h, stat-put_file fs p p content, str_eq_iff p p)

pub stat-write_file_ne :
    (fs : Fs) (p q content : Str) → p ≢ q → stat (write_file fs p content).0 q ≡ stat fs q
unfolding stat write_file
stat-write_file_ne fs p q content h =
    ground (arith, lookup-insert q p (file content (fs.clock + 1)) fs.nodes, str_eq_iff p q)

pub stat-remove :
    (fs : Fs) (p q : Str)
    → (remove fs p).1 ≡ ok tt
    → stat (remove fs p).0 q ≡ (if str_eq p q then err os_not_exist else stat fs q)
unfolding stat remove
stat-remove fs p q h = ground (arith, lookup-erase q p fs.nodes, str_eq_iff p q)

-- A removal that fails has changed nothing.
pub remove-unchanged : (fs : Fs) (p : Str) → (remove fs p).1 ≢ ok tt → (remove fs p).0 ≡ fs
unfolding remove
remove-unchanged fs p h = ground arith

-- The tests look at nothing but what `stat` returns.
pub file_exists-stat :
    (fs fs' : Fs) (p q : Str) → stat fs p ≡ stat fs' q → file_exists fs p ≡ file_exists fs' q
unfolding file_exists
file_exists-stat fs fs' p q h = ground (arith, h)

pub read_file-stat :
    (fs fs' : Fs) (p q : Str) → stat fs p ≡ stat fs' q → read_file fs p ≡ read_file fs' q
unfolding read_file
read_file-stat fs fs' p q h = ground (arith, h)

pub file_exists_absent :
    (fs : Fs) (p : Str) → stat fs p ≡ err os_not_exist → file_exists fs p ≡ ok false
unfolding file_exists
file_exists_absent fs p h = ground (arith, h)
