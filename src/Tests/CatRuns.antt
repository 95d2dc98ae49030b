-- ===== src/Tests/CatRuns.antt =====
-- src/lib.rs: `cat_node` on an image of five bytes.
use isomage.Prelude.{◌≡◌, ◌≢◌, refl, true, [], none, ok, err, arith}
use isomage.Text.{codes}
use isomage.Bytes.{slice}
use isomage.Reader.{Reader, unexpected_eof}
use isomage.Tree.{TreeNode, node, nil, new_file_with_location}
use isomage.Cat.{
  Writer, WriteError, broken_pipe, Error, is_directory, io, write, no_fuel, cat_node, cat_extent,
  after_seek, cat_loop,
}
use isomage.Cat
use isomage.Cat.Bytes.{vec_writer, cat_node-bytes, cat_node-eof}
use isomage.Cat.Errors.{cat_node-no_error}

abbrev image : Reader
image = record { image = codes "hello"; pos = 5 }

-- A writer whose pipe is closed from the start.
abbrev closed : Writer (Unit {0})
closed = record { write_all = λ buf w. (err broken_pipe, tt) }

abbrev file : TreeNode
file = new_file_with_location (codes "f") 3 1 3

copies : (cat_node vec_writer file image []).2 ≡ codes "ell"
unfolding cat_node cat_extent after_seek cat_loop isomage.Cat.after_read isomage.Cat.after_write
    vec_writer new_file_with_location isomage.Reader.seek_start isomage.Reader.read_exact slice
copies = refl

closed_pipe_is_the_end : (cat_node closed file image tt).0 ≡ ok tt
unfolding cat_node cat_extent after_seek cat_loop isomage.Cat.after_read isomage.Cat.after_write
    new_file_with_location isomage.Reader.seek_start isomage.Reader.read_exact slice
closed_pipe_is_the_end = refl

refuses_directory :
    (cat_node vec_writer (node (codes "d") 0 true nil none none) image []).0
    ≡ err (is_directory (codes "d"))
unfolding cat_node
refuses_directory = refl

cat_node-bytes_example :
    cat_node vec_writer (new_file_with_location (codes "f") 3 1 3) image []
    ≡ (ok tt, record image { pos = 4 }, slice (codes "hello") 1 4)
cat_node-bytes_example = cat_node-bytes 1 3 (codes "f") 3 image [] (omega arith) (omega arith)

cat_node-eof_example :
    (cat_node vec_writer (new_file_with_location (codes "f") 3 4 3) image []).0
    ≡ err (io unexpected_eof)
cat_node-eof_example =
    cat_node-eof 4 3 (codes "f") 3 image [] (omega arith) (omega arith) (omega arith)

cat_node-no_error_example :
    ((cat_node closed file image tt).0 ≢ err no_fuel)
    × ((cat_node closed file image tt).0 ≢ err (write broken_pipe))
cat_node-no_error_example = cat_node-no_error (Unit {0}) closed file image tt
