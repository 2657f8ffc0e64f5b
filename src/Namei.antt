-- ===== src/Namei.antt =====
-- Path resolution: src/private/{namei,filename}.c and src/private/namei. `Filename` copies a name from
-- the user, `Hash` splits a path, `State` holds the walk, `Mounts`, `Links` and `Steps` are what one
-- component takes, `Walk` is the loop over the components, `Lookup` its callers, and
-- `Create` what follows the walk to a parent.
pub mod Hash
pub mod Filename
pub mod State
pub mod Mounts
pub mod Links
pub mod Steps
pub mod Walk
pub mod Lookup
pub mod Create
pub mod Open
